-- ===== src/Decision/Trail.antt =====
-- The trace that answers "why did it do that?".
use flickr.Base.{
  Bool, true, false, Option, none, some, List, [], ◌∷◌, ◌++◌, ◌≡◌, refl, inl, inr, Bytes, str, ℤ,
  pos, negsuc, bytes_eq, ◌==◌, arith, if◌then◌else◌, Bool-cases, All, All-append, get_elem?,
  Option-cases,
}
use flickr.Base.Float.{Floats}
use flickr.Model.{
  MediaInfo, SubtitleTrack, ClientCapabilities, ServerPolicy, PlayDecision, PlayMethod, direct_play,
  deny, medium_or_video, medium_audio, TraceStep,
}
use flickr.Decision.Tracer.{step, check, check_if, note}
use flickr.Decision.Checks.{VideoChecks, select_audio, video_checks, audio_checks}
use flickr.Decision.{
  Options, all_pass, all_pass_audio, decide_with, decide_medium, decide_video, decide_audio,
  note_burn,
}

abbrev pub AllPassed : List TraceStep → Type 0
AllPassed = All (λ (s : TraceStep). s.passed ≡ true)

-- The last step of a trace is the verdict, and it passed unless the file is denied.
abbrev pub EndsInVerdict : PlayMethod → List TraceStep → Type 0
EndsInVerdict method trace =
    (before : List TraceStep) × (detail : Bytes) × (trace
      ≡ before ++ step (str "verdict") (elim method [ deny ↦ false | _ ↦ true ]) detail ∷ [])

module _ (name : Bytes) (b : Bool) (detail : Bytes) (s : List TraceStep) where
  check-AllPassed :
      (check name b detail s).0 ≡ true → AllPassed s → AllPassed (check name b detail s).1
  unfolding check
  check-AllPassed e h = All-append _ s _ h (e, tt)

  check_if-AllPassed :
      (made : Bool)
      → (check_if made name b detail s).0 ≡ true
      → AllPassed s
      → AllPassed (check_if made name b detail s).1
  unfolding check_if
  check_if-AllPassed true e h = All-append _ s _ h (e, tt)
  check_if-AllPassed false e h = h

note-AllPassed :
    (name detail : Bytes) (s : List TraceStep) → AllPassed s → AllPassed (note name true detail s).1
unfolding note
note-AllPassed name detail s h = All-append _ s _ h (refl, tt)

module _ {F : Type 0} (m : MediaInfo F) (c : ClientCapabilities) where
  video_checks-AllPassed :
      (burn : Option SubtitleTrack) (s : List TraceStep)
      → all_pass (video_checks m c s).0 burn ≡ true
      → AllPassed s
      → AllPassed (video_checks m c s).1
  unfolding video_checks all_pass
  video_checks-AllPassed burn s e h = check-AllPassed _ _ _ _ (ground arith) (
      check_if-AllPassed _ _ _ _ _ (ground arith) (
        check_if-AllPassed _ _ _ _ _ (ground arith) (
          check-AllPassed _ _ _ _ (ground arith) (
            check-AllPassed _ _ _ _ (ground arith) (
              check-AllPassed _ _ _ _ (ground arith) (check-AllPassed _ _ _ _ (ground arith) h))))))

  audio_checks-AllPassed :
      (s : List TraceStep)
      → all_pass_audio (audio_checks m c s).0 ≡ true
      → AllPassed s
      → AllPassed (audio_checks m c s).1
  unfolding audio_checks all_pass_audio
  audio_checks-AllPassed s e h = check-AllPassed _ _ _ _ (ground arith) (
      check_if-AllPassed _ _ _ _ _ (ground arith)
        (check-AllPassed _ _ _ _ (ground arith) (check-AllPassed _ _ _ _ (ground arith) h)))

select_audio-AllPassed :
    {F : Type 0} (m : MediaInfo F) (track : Option ℤ) → AllPassed (select_audio m track []).1
unfolding select_audio
select_audio-AllPassed m none = tt
select_audio-AllPassed m (some (negsuc n)) = tt
select_audio-AllPassed m (some (pos n)) = elim (Option-cases (get_elem? m.audio_tracks n)) [
  | inl e ↦ rw e tt
  | inr (t, e) ↦ rw e (note-AllPassed _ _ [] tt)
]

module _ (fl : Floats) where
  open fl use {Float}

  -- What a trace promises: it ends in the verdict, and where the file is played directly every
  -- step of it passed.
  pub record Explains (d : PlayDecision Float) : Type 0 where
    pub ends : EndsInVerdict d.method d.trace
    pub direct : d.method ≡ direct_play → AllPassed d.trace

  module _ (m : MediaInfo Float) (c : ClientCapabilities) (policy : ServerPolicy) (n : ℤ)
      (s : List TraceStep) where
    decide_audio-Explains : AllPassed s → Explains (decide_audio fl m c policy n s).0
    unfolding decide_audio
    decide_audio-Explains h = elim (Bool-cases (all_pass_audio (audio_checks m c s).0)) [
      | inl passes ↦
          rw (passes, if◌then◌else◌)
            (record {
              ends = unfold note in (_, _, refl);
              direct = λ _. note-AllPassed _ _ _ (audio_checks-AllPassed m c s passes h);
            })
      | inr fails ↦ elim (Bool-cases policy.allow_transcode) [
        | inl allowed ↦
            rw (fails, allowed, if◌then◌else◌)
              (record { ends = unfold note in (_, _, refl); direct = λ e. cc })
        | inr refused ↦
            rw (fails, refused, if◌then◌else◌)
              (record { ends = unfold note in (_, _, refl); direct = λ e. cc })
      ]
    ]

    decide_video-Explains :
        (burn : Option SubtitleTrack)
        → (all_pass (video_checks m c s).0 burn ≡ true → AllPassed s)
        → Explains (decide_video fl m c policy n burn s).0
    unfolding decide_video
    decide_video-Explains burn h = elim (Bool-cases (all_pass (video_checks m c s).0 burn)) [
      | inl passes ↦
          rw (passes, if◌then◌else◌)
            (record {
              ends = unfold note in (_, _, refl);
              direct =
                  λ _. note-AllPassed _ _ _ (video_checks-AllPassed m c burn s passes (h passes));
            })
      | inr fails ↦ elim (Bool-cases policy.allow_transcode) [
        | inl allowed ↦
            rw (fails, allowed, if◌then◌else◌)
              (record { ends = unfold note in (_, _, refl); direct = λ e. cc })
        | inr refused ↦
            rw (fails, refused, if◌then◌else◌)
              (record { ends = unfold note in (_, _, refl); direct = λ e. cc })
      ]
    ]

  no_pass_under_burn : (c : VideoChecks) (b : SubtitleTrack) → all_pass c (some b) ≡ true → ⊥
  unfolding all_pass
  no_pass_under_burn c b h = ground arith

  -- A burn is noted as a step that did not pass, and rules a direct play out.
  burned-Explains :
      (m : MediaInfo Float) (c : ClientCapabilities) (policy : ServerPolicy) (n : ℤ)
      (burn : Option SubtitleTrack) (s : List TraceStep)
      → AllPassed s
      → Explains (decide_video fl m c policy n burn (note_burn burn s).1).0
  unfolding note_burn
  burned-Explains m c policy n none s h = decide_video-Explains m c policy n s none (λ _. h)
  burned-Explains m c policy n (some b) s h =
      decide_video-Explains m c policy n _ (some b) (λ e. absurd (no_pass_under_burn _ b e))

  decide_medium-Explains :
      (m : MediaInfo Float) (c : ClientCapabilities) (policy : ServerPolicy) (opts : Options)
      (n : ℤ) (s : List TraceStep)
      → AllPassed s
      → Explains (decide_medium fl m c policy opts n s).0
  unfolding decide_medium
  decide_medium-Explains m c policy opts n s h =
      elim (Bool-cases (medium_or_video (some m) == medium_audio)) [
        | inl audio ↦ rw (audio, if◌then◌else◌) (decide_audio-Explains m c policy n s h)
        | inr video ↦ rw (video, if◌then◌else◌) (burned-Explains m c policy n _ s h)
      ]

  -- Every trace ends in the verdict, which passed unless the file is denied; where the file is
  -- played directly, every step of the trace passed.
  pub trace-Explains :
      (media : MediaInfo Float) (caps : ClientCapabilities) (policy : ServerPolicy) (opts : Options)
      → Explains (decide_with fl media caps policy opts)
  unfolding decide_with
  trace-Explains media caps policy opts =
      decide_medium-Explains _ _ policy opts _ _ (select_audio-AllPassed media opts.audio_track)
