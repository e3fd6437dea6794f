-- ===== src/Pipeline/Sessions/Live.antt =====
-- The live transcodes of internal/pipeline/pipeline.go over any sequence of calls, and what the
-- reaper leaves of them.
use flickr.Base.{
  ℤ, lt_int, Bool, true, false, Option, none, List, [], ◌∷◌, ◌++◌, ◌≡◌, refl, sym, ap, subst, ◌∙◌,
  inl, inr, Bytes, bytes_eq, ◌==◌, if◌then◌else◌, All, All-map, Bool-cases, Option-cases,
}
use flickr.Base.Assoc.{
  Lacks, Distinct, without, without-Lacks, Distinct-without, Distinct-append, keys, get,
  keys-put_new, keys-put_held, keys-delete, get_held, get-Lacks, different_sym, delete_first,
  delete_each, delete_each_behind, delete_each-keys,
}
use flickr.Model.{TranscodeTarget}
use flickr.Pipeline.Job.{HwAccel}
use flickr.Pipeline.Sessions.{
  Session, SessionManager, new_session_manager, sub, idle_session_ids, session_for, register,
  create, touch, stop, stop_each, reap_idle, stop_all,
}

module _ {F : Type 0} where
  -- What calls lead to; an id that is drawn is not in use.
  pub data Reaches : SessionManager F → Type 0 where
    started : (root : Bytes) (hw : Option HwAccel) → Reaches (new_session_manager root hw)
    created :
        (m : SessionManager F) (id : Bytes) (starts : Bool) (now : ℤ) (input_url : Bytes)
        (target : TranscodeTarget F) (seek : F)
        → get id m.sessions ≡ none
        → Reaches m
        → Reaches (create m id starts now input_url target seek).1
    touched : (m : SessionManager F) (id : Bytes) (now : ℤ) → Reaches m → Reaches (touch m id now)
    stopped : (m : SessionManager F) (id : Bytes) → Reaches m → Reaches (stop m id)
    reaped :
        (m : SessionManager F) (now max_idle : ℤ) → Reaches m → Reaches (reap_idle m now max_idle).1
    all_stopped : (m : SessionManager F) → Reaches m → Reaches (stop_all m)

  -- The sessions, the last accesses and the processes are of the same ids, each once.
  pub record Live (m : SessionManager F) : Type 0 where
    pub accessed : keys m.last_access ≡ keys m.sessions
    pub running_all : m.running ≡ keys m.sessions
    pub distinct : Distinct (keys m.sessions)

  register-Live :
      (m : SessionManager F) (s : Session F) (now : ℤ)
      → get s.id m.sessions ≡ none
      → Live m
      → Live (register m s now)
  unfolding register
  register-Live m s now free live =
      let lacks = get-Lacks s.id m.sessions free in
      let behind = keys-put_new s.id s m.sessions lacks in
      record {
        accessed =
            keys-put_new s.id now m.last_access (subst (Lacks s.id) (sym live.accessed) lacks)
            ∙ ap (λ ks. ks ++ s.id ∷ []) live.accessed
            ∙ sym behind;
        running_all = ap (λ ks. ks ++ s.id ∷ []) live.running_all ∙ sym behind;
        distinct =
            subst Distinct (sym behind)
              (Distinct-append (keys m.sessions) s.id live.distinct lacks);
      }

  create-Live :
      (m : SessionManager F) (id : Bytes) (starts : Bool) (now : ℤ) (input_url : Bytes)
      (target : TranscodeTarget F) (seek : F)
      → get id m.sessions ≡ none
      → Live m
      → Live (create m id starts now input_url target seek).1
  unfolding create session_for
  create-Live m id true now input_url target seek free live =
      register-Live m (session_for m id input_url target seek) now free live
  create-Live m id false now input_url target seek free live = live

  touch-Live : (m : SessionManager F) (id : Bytes) (now : ℤ) → Live m → Live (touch m id now)
  unfolding touch
  touch-Live m id now live = elim (Option-cases (get id m.sessions)) [
    | inl gone ↦ rw (touch, gone) live
    | inr (s, there) ↦
        rw (touch, there)
          (record {
            accessed =
                keys-put_held id now m.last_access
                  (λ lacks. get_held id s m.sessions there (subst (Lacks id) live.accessed lacks))
                ∙ live.accessed;
            running_all = live.running_all;
            distinct = live.distinct;
          })
  ]

  stop-Live : (m : SessionManager F) (id : Bytes) → Live m → Live (stop m id)
  unfolding stop
  stop-Live m id live = record {
    accessed =
        keys-delete id m.last_access
        ∙ ap (without id) live.accessed
        ∙ sym (keys-delete id m.sessions);
    running_all = still_running ∙ sym (keys-delete id m.sessions);
    distinct =
        subst Distinct (sym (keys-delete id m.sessions))
          (Distinct-without id (keys m.sessions) live.distinct);
  }
    where
      still_running : (stop m id).running ≡ without id (keys m.sessions)
      still_running = elim (Option-cases (get id m.sessions)) [
        | inl gone ↦
            rw (stop, gone)
              (live.running_all
                ∙ sym (without-Lacks id (keys m.sessions) (get-Lacks id m.sessions gone)))
        | inr (s, there) ↦ rw (stop, there) (ap (without id) live.running_all)
      ]

  stop_each-Live : (m : SessionManager F) (ids : List Bytes) → Live m → Live (stop_each m ids)
  unfolding stop_each
  stop_each-Live m [] live = live
  stop_each-Live m (id ∷ ids) live = stop_each-Live (stop m id) ids (stop-Live m id live)

  -- No process runs without a session that stops it.
  Reaches-Live : (m : SessionManager F) → Reaches m → Live m
  unfolding new_session_manager reap_idle stop_all
  Reaches-Live m (started root hw) = record { accessed = refl; running_all = refl; distinct = tt }
  Reaches-Live m (created m' id starts now input_url target seek free before) =
      create-Live m' id starts now input_url target seek free (Reaches-Live m' before)
  Reaches-Live m (touched m' id now before) = touch-Live m' id now (Reaches-Live m' before)
  Reaches-Live m (stopped m' id before) = stop-Live m' id (Reaches-Live m' before)
  Reaches-Live m (reaped m' now max_idle before) =
      stop_each-Live m' (idle_session_ids m'.last_access now max_idle) (Reaches-Live m' before)
  Reaches-Live m (all_stopped m' before) =
      stop_each-Live m' (keys m'.sessions) (Reaches-Live m' before)

-- The accesses that are no longer ago than a duration.
unfoldable pub awake : List (Bytes × ℤ) → ℤ → ℤ → List (Bytes × ℤ)
awake [] now max_idle = []
awake ((id, at) ∷ last) now max_idle =
    let rest = awake last now max_idle in
    if lt_int max_idle (sub now at) then rest else (id, at) ∷ rest

All-idle_session_ids :
    (P : Bytes → Type 0) (last : List (Bytes × ℤ)) (now max_idle : ℤ)
    → All P (keys last)
    → All P (idle_session_ids last now max_idle)
unfolding idle_session_ids
All-idle_session_ids P [] now max_idle h = tt
All-idle_session_ids P ((id, at) ∷ last) now max_idle (p, h) =
    let rest = All-idle_session_ids P last now max_idle h in
    elim (Bool-cases (lt_int max_idle (sub now at))) [
      | inl idle ↦ rw (idle, if◌then◌else◌) (p, rest)
      | inr fresh ↦ rw (fresh, if◌then◌else◌) rest
    ]

idle_deleted :
    (last : List (Bytes × ℤ)) (now max_idle : ℤ)
    → Distinct (keys last)
    → delete_each (idle_session_ids last now max_idle) last ≡ awake last now max_idle
unfolding idle_session_ids awake delete_each
idle_deleted [] now max_idle h = refl
idle_deleted ((id, at) ∷ last) now max_idle (lacks, h) =
    let ids = idle_session_ids last now max_idle in
    elim (Bool-cases (lt_int max_idle (sub now at))) [
      | inl idle ↦
          rw (idle, if◌then◌else◌)
            (ap (delete_each ids) (delete_first id at last lacks)
              ∙ idle_deleted last now max_idle h)
      | inr fresh ↦
          rw (fresh, if◌then◌else◌)
            (delete_each_behind id at ids last (
                All-idle_session_ids (λ j. (id == j) ≡ false) last now max_idle
                  (All-map (λ j. (j == id) ≡ false) (λ j. (id == j) ≡ false) (keys last)
                    (λ j. different_sym j id) lacks))
              ∙ ap (λ r. (id, at) ∷ r) (idle_deleted last now max_idle h))
    ]

module _ {F : Type 0} where
  stop_each-last_access :
      (m : SessionManager F) (ids : List Bytes)
      → (stop_each m ids).last_access ≡ delete_each ids m.last_access
  unfolding stop_each delete_each stop
  stop_each-last_access m [] = refl
  stop_each-last_access m (id ∷ ids) = stop_each-last_access (stop m id) ids

  stop_each-sessions :
      (m : SessionManager F) (ids : List Bytes)
      → (stop_each m ids).sessions ≡ delete_each ids m.sessions
  unfolding stop_each delete_each stop
  stop_each-sessions m [] = refl
  stop_each-sessions m (id ∷ ids) = stop_each-sessions (stop m id) ids

  -- After any calls, the sessions, their last accesses and the processes that run are of the same ids, each once. A reap then leaves the last accesses that are not longer ago than the duration, and the processes of just these sessions; StopAll leaves no session and no process. Ids that are drawn are not in use.
  pub reap_idle-awake :
      (m : SessionManager F) (now max_idle : ℤ)
      → Reaches m
      → Live m
        × ((reap_idle m now max_idle).1.last_access ≡ awake m.last_access now max_idle)
        × ((reap_idle m now max_idle).1.running ≡ keys (awake m.last_access now max_idle))
        × ((stop_all m).sessions ≡ [])
        × ((stop_all m).running ≡ [])
  unfolding reap_idle stop_all
  reap_idle-awake m now max_idle reached =
      let live = Reaches-Live m reached in
      let after = Reaches-Live _ (reaped m now max_idle reached) in
      let ended = Reaches-Live _ (all_stopped m reached) in
      let left =
        stop_each-last_access m (idle_session_ids m.last_access now max_idle)
        ∙ idle_deleted m.last_access now max_idle
            (subst Distinct (sym live.accessed) live.distinct) in
      let none_left =
        stop_each-sessions m (keys m.sessions) ∙ delete_each-keys m.sessions live.distinct in
      (
        live,
        left,
        after.running_all ∙ sym after.accessed ∙ ap keys left,
        none_left,
        ended.running_all ∙ ap keys none_left,
      )
