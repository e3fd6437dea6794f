-- ===== src/Passage/Episode/Resolve.antt =====
-- What ResolveShow in internal/passage/passage.go comes to, stated apart from its code.
use flickr.Base.{
  ℤ, int_eq, int_beq_iff, true, false, Option, none, some, List, [], ◌∷◌, ◌++◌, ◌≡◌, refl, ◌≢◌, ◌⊎◌,
  inl, inr, ap, sym, Bytes, str, bytes_eq, bytes_beq_iff, nat_eq, if◌then◌else◌, All, is_empty,
  arith, Bool-cases, Option-cases, subst, ◌↔◌,
}
use flickr.Passage.{Passage}
use flickr.Passage.Episode.{
  Episode, Member, string, after_letter, skip_blank, parse_episode_code, is_episode, find_episode,
  not_a_code, no_episode, no_end, Resolution, resolved, refused, panicked, ep_of, item_form,
  run_end, resolve_run, resolve_show,
}

-- A member is an episode where its identity says so or says nothing, and the numbers are the code's.
abbrev pub IsEpisode : Episode → Member → Type 0
IsEpisode e m =
    ((m.kind ≡ []) ⊎ (m.kind ≡ str "episode")) × (m.season ≡ e.season) × (m.episode ≡ e.number)

is_episode_iff : (e : Episode) (m : Member) → (is_episode e m ≡ true) ↔ IsEpisode e m
unfolding is_episode
is_episode_iff e m = ground (
  arith,
  bytes_beq_iff m.kind [],
  bytes_beq_iff m.kind (str "episode"),
  int_beq_iff m.season e.season,
  int_beq_iff m.episode e.number,
)

-- The first of the members that is the episode.
pub record IsFirst (e : Episode) (members : List Member) (m : Member) : Type 0 where
  pub before : List Member
  pub behind : List Member
  pub split : members ≡ before ++ m ∷ behind
  pub others : All (λ x. IsEpisode e x → ⊥) before
  pub is : IsEpisode e m

abbrev pub IsMissing : Episode → List Member → Type 0
IsMissing e = All (λ x. IsEpisode e x → ⊥)

-- What a search for an episode finds.
abbrev pub Finds : Episode → List Member → Option Member → Type 0
Finds e members none = IsMissing e members
Finds e members (some m) = IsFirst e members m

skip_other :
    (e : Episode) (m : Member) (ms : List Member) (o : Option Member)
    → (IsEpisode e m → ⊥)
    → Finds e ms o
    → Finds e (m ∷ ms) o
skip_other e m ms none other h = (other, h)
skip_other e m ms (some x) other h = record {
  before = m ∷ h.before;
  behind = h.behind;
  split = ap (λ r. m ∷ r) h.split;
  others = (other, h.others);
  is = h.is;
}

-- A search finds the first member that is the episode, and nothing exactly where none is.
pub find_episode-Finds :
    (e : Episode) (members : List Member) → Finds e members (find_episode members e)
unfolding find_episode
find_episode-Finds e [] = tt
find_episode-Finds e (m ∷ ms) = elim (Bool-cases (is_episode e m)) [
  | inl here ↦
      rw (here, if◌then◌else◌)
        (record {
          before = [];
          behind = ms;
          split = refl;
          others = tt;
          is = (is_episode_iff e m).0 here;
        })
  | inr other ↦
      rw (other, if◌then◌else◌)
        (skip_other e m ms (find_episode ms e) (λ is. ground (arith, (is_episode_iff e m).1 is))
          (find_episode-Finds e ms))
]

-- A code names a member: the first that is its episode.
abbrev pub Names : Bytes → List Member → Member → Type 0
Names code members m = (e : Episode) × (parse_episode_code code ≡ some e) × IsFirst e members m

-- A code that names no member, and how the refusal spells it.
abbrev pub NamesNone : Bytes → List Member → Bytes → Type 0
NamesNone code members named =
    ((named ≡ code) × (parse_episode_code code ≡ none))
    ⊎ ((e : Episode) × (parse_episode_code code ≡ some e)
        × (named ≡ string e)
        × IsMissing e members)

module _ {F : Type 0} where
  -- The id that the run of a passage ends at: its own, or that of the member its code names.
  abbrev pub RunsTo : Passage F → List Member → Option ℤ → Type 0
  RunsTo p members until =
      ((p.until_ep ≡ []) × (until ≡ p.until))
      ⊎ ((p.until_ep ≢ []) × ((m : Member) × Names p.until_ep members m × (until ≡ some m.id)))

  abbrev pub Outcome : Option (Passage F) → List Member → Resolution F → Type 0
  Outcome p members (resolved m q) =
      (x : Passage F) × (p ≡ some x)
      × Names x.ep members m
      × RunsTo x members q.until
      × (q.t ≡ x.t)
      × (q.end ≡ x.end)
      × (q.from ≡ x.from)
      × (q.to ≡ x.to)
      × (q.ep ≡ [])
      × (q.until_ep ≡ [])
  Outcome p members (refused (not_a_code v)) = (v ≡ ep_of p) × (parse_episode_code v ≡ none)
  Outcome p members (refused (no_episode e)) =
      (parse_episode_code (ep_of p) ≡ some e) × IsMissing e members
  Outcome p members (refused (no_end named)) =
      (x : Passage F) × (p ≡ some x)
      × ((m : Member) × Names x.ep members m)
      × (x.until_ep ≢ [])
      × NamesNone x.until_ep members named
  Outcome p members panicked = ⊥

no_code : parse_episode_code [] ≡ none
unfolding parse_episode_code after_letter skip_blank
no_code = refl

abbrev RunEnd : Bytes → List Member → ℤ ⊎ Bytes → Type 0
RunEnd code members (inl id) = (m : Member) × Names code members m × (id ≡ m.id)
RunEnd code members (inr named) = NamesNone code members named

-- A search that was run, with what its result says.
search_cases :
    (e : Episode) (members : List Member)
    → ((find_episode members e ≡ none) × IsMissing e members)
      ⊎ ((m : Member) × (find_episode members e ≡ some m) × IsFirst e members m)
search_cases e members = elim (Option-cases (find_episode members e)) [
  | inl gone ↦ inl (gone, subst (Finds e members) gone (find_episode-Finds e members))
  | inr (m, found) ↦ inr (m, found, subst (Finds e members) found (find_episode-Finds e members))
]

run_end-RunEnd : (members : List Member) (code : Bytes) → RunEnd code members (run_end members code)
unfolding run_end
run_end-RunEnd members code = elim (Option-cases (parse_episode_code code)) [
  | inl unread ↦
      let e : run_end members code ≡ inr code = rw (unread, run_end) refl in
      subst (RunEnd code members) (sym e) (inl (refl, unread))
  | inr (w, read) ↦ elim (search_cases w members) [
    | inl (gone, missing) ↦
        let e : run_end members code ≡ inr (string w) = rw (read, gone, run_end) refl in
        subst (RunEnd code members) (sym e) (inr (w, read, refl, missing))
    | inr (m, found, first) ↦
        let e : run_end members code ≡ inl m.id = rw (read, found, run_end) refl in
        subst (RunEnd code members) (sym e) (m, (w, read, first), refl)
  ]
]

module _ {F : Type 0} where
  resolve_run-Outcome :
      (members : List Member) (x : Passage F) (item : Member)
      → Names x.ep members item
      → Outcome (some x) members (resolve_run members item (some x))
  unfolding resolve_run item_form
  resolve_run-Outcome members x item h = elim (Bool-cases (is_empty x.until_ep)) [
    | inl own ↦
        rw (own, if◌then◌else◌)
          (x, refl, h, inl (empty_code x.until_ep own, refl), refl, refl, refl, refl, refl, refl)
    | inr code ↦
        rw (code, if◌then◌else◌)
          (by_code (named_code x.until_ep code) (run_end members x.until_ep)
            (run_end-RunEnd members x.until_ep))
  ]
    where
      empty_code : (s : Bytes) → is_empty s ≡ true → s ≡ []
      empty_code [] e = refl
      empty_code (c ∷ s) e = cc

      named_code : (s : Bytes) → is_empty s ≡ false → s ≢ []
      named_code [] e e' = cc
      named_code (c ∷ s) e e' = cc

      by_code :
          x.until_ep ≢ []
          → (r : ℤ ⊎ Bytes) → RunEnd x.until_ep members r
          → Outcome (some x) members (elim r [
            | inl id ↦ resolved item (item_form x (some id))
            | inr named ↦ refused (no_end named)
          ])
      by_code named (inl id) (m, names, same) =
          (x, refl, h, inr (named, (m, names, ap some same)), refl, refl, refl, refl, refl, refl)
      by_code named (inr code) none_named = (x, refl, (item, h), named, none_named)

  -- A show's passage resolves to the first member its code names, and to a run until the first member its end names, with times and places kept; it is refused for the first thing it cannot name, and never panics.
  pub resolve_show-Outcome :
      (p : Option (Passage F)) (members : List Member) → Outcome p members (resolve_show p members)
  unfolding resolve_show ep_of
  resolve_show-Outcome none members =
      let e : resolve_show {F = F} none members ≡ refused (not_a_code []) =
        rw (no_code, resolve_show) refl in
      subst (Outcome none members) (sym e) (refl, no_code)
  resolve_show-Outcome (some x) members = elim (Option-cases (parse_episode_code x.ep)) [
    | inl unread ↦
        let e : resolve_show (some x) members ≡ refused (not_a_code x.ep) =
          rw (unread, resolve_show) refl in
        subst (Outcome (some x) members) (sym e) (refl, unread)
    | inr (w, read) ↦ elim (search_cases w members) [
      | inl (gone, missing) ↦
          let e : resolve_show (some x) members ≡ refused (no_episode w) =
            rw (read, gone, resolve_show) refl in
          subst (Outcome (some x) members) (sym e) (read, missing)
      | inr (m, found, first) ↦
          let e : resolve_show (some x) members ≡ resolve_run members m (some x) =
            rw (read, found, resolve_show) refl in
          subst (Outcome (some x) members) (sym e)
            (resolve_run-Outcome members x m (w, read, first))
    ]
  ]
