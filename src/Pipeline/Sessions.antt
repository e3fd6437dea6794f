-- ===== src/Pipeline/Sessions.antt =====
-- internal/pipeline/pipeline.go: the live transcodes and the reaper. A process is named by its
-- session; starting one and the id that is drawn for it are arguments. Moments and durations are
-- nanoseconds.
pub mod Live
use flickr.Base.{
  ℕ, ℤ, pos, negsuc, le_int, lt_int, ◌+ℤ◌, negate, Bool, true, false, not, ◌&&◌, Option, none, some,
  List, [], ◌∷◌, ◌++◌, Bytes, str, bytes_eq, ◌==◌, if◌then◌else◌, length, is_some, is_empty,
}
use flickr.Base.Assoc.{get, put, delete, without, keys}
use flickr.Model.{TranscodeTarget}
use flickr.Pipeline.Job.{HwAccel, Job, join_path}

pub record Session (F : Type 0) : Type 0 where
  pub id : Bytes
  pub job : Job F

-- The sessions and their last accesses, and the processes that start has left and stop has not.
pub record SessionManager (F : Type 0) : Type 0 where
  pub streams_root : Bytes
  pub hw : Option HwAccel
  pub sessions : List (Bytes × Session F)
  pub last_access : List (Bytes × ℤ)
  pub running : List Bytes

unfoldable pub new_session_manager : {F : Type 0} → Bytes → Option HwAccel → SessionManager F
new_session_manager root hw = record {
  streams_root = root;
  hw = hw;
  sessions = [];
  last_access = [];
  running = [];
}

-- time.Time.Sub, which stops at the ends of an int64.
unfoldable pub sub : ℤ → ℤ → ℤ
sub now at =
    let d = now +ℤ negate at in
    if lt_int (pos 9223372036854775807) d
    then pos 9223372036854775807
    else if lt_int d (negsuc 9223372036854775807)
    then negsuc 9223372036854775807
    else d

unfoldable pub idle_session_ids : List (Bytes × ℤ) → ℤ → ℤ → List Bytes
idle_session_ids [] now max_idle = []
idle_session_ids ((id, at) ∷ last) now max_idle =
    let rest = idle_session_ids last now max_idle in
    if lt_int max_idle (sub now at) then id ∷ rest else rest

module _ {F : Type 0} where
  unfoldable pub session_for : SessionManager F → Bytes → Bytes → TranscodeTarget F → F → Session F
  unfolding join_path
  session_for m id input_url target seek = record {
    id = id;
    job = record {
      input_url = input_url;
      target = target;
      output_dir = join_path m.streams_root id;
      seek_seconds = seek;
      hw = m.hw;
    };
  }

  unfoldable pub register : SessionManager F → Session F → ℤ → SessionManager F
  register m s now = record m {
    sessions = put s.id s m.sessions;
    last_access = put s.id now m.last_access;
    running = m.running ++ s.id ∷ [];
  }

  -- none is the error of a process that does not start.
  unfoldable pub create :
      SessionManager F
      → Bytes
      → Bool
      → ℤ
      → Bytes
      → TranscodeTarget F
      → F
      → Option (Session F) × SessionManager F
  unfolding session_for register
  create m id started now input_url target seek =
      let s = session_for m id input_url target seek in
      if started then (some s, register m s now) else (none, m)

  unfoldable pub touch : SessionManager F → Bytes → ℤ → SessionManager F
  touch m id now = elim (get id m.sessions) [
    | none ↦ m
    | some s ↦ record m { last_access = put id now m.last_access }
  ]

  unfoldable pub stop : SessionManager F → Bytes → SessionManager F
  stop m id = record m {
    sessions = delete id m.sessions;
    last_access = delete id m.last_access;
    running = elim (get id m.sessions) [ none ↦ m.running | some s ↦ without id m.running ];
  }

  unfoldable pub stop_each : SessionManager F → List Bytes → SessionManager F
  stop_each m [] = m
  stop_each m (id ∷ ids) = stop_each (stop m id) ids

  unfoldable pub reap_idle : SessionManager F → ℤ → ℤ → List Bytes × SessionManager F
  unfolding stop_each
  reap_idle m now max_idle =
      let ids = idle_session_ids m.last_access now max_idle in (ids, stop_each m ids)

  unfoldable pub stop_all : SessionManager F → SessionManager F
  unfolding stop_each
  stop_all m = stop_each m (keys m.sessions)

  unfoldable pub active_count : SessionManager F → ℕ
  active_count m = length m.sessions
