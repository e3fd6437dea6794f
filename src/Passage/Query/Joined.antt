-- ===== src/Passage/Query/Joined.antt =====
-- Texts that are joined from the parts of a query: what Parse and Split see at their start.
use flickr.Base.{
  ℕ, Bool, true, false, ◌&&◌, List, [], ◌∷◌, ◌++◌, ◌≡◌, refl, ◌≢◌, Bytes, join, show, show-ne-nil,
  nat_eq, bytes_eq, is_empty, map, All, arith,
}
use flickr.Passage.Values.RoundTrip.{Entry, Encodes, Lacks, cut_byte_first, part, is_empty-join}
use flickr.Passage.{trim_question, split}

pub is_empty-show : (n : ℕ) → is_empty (show n) ≡ false
is_empty-show n = not_empty (show n) (show-ne-nil n)
  where
    not_empty : (s : Bytes) → s ≢ [] → is_empty s ≡ false
    not_empty [] h = absurd (h refl)
    not_empty (c ∷ s) h = refl

pub is_empty-append :
    {A : Type 0} (xs ys : List A) → is_empty (xs ++ ys) ≡ (is_empty xs && is_empty ys)
is_empty-append [] ys = refl
is_empty-append (x ∷ xs) ys = refl

pub and_assoc : (a b c : Bool) → ((a && b) && c) ≡ (a && (b && c))
and_assoc true b c = refl
and_assoc false b c = refl

pub is_empty-join-map :
    (es : List Entry)
    → is_empty (map part es) ≡ false
    → is_empty (join (b'&' ∷ []) (map part es)) ≡ false
is_empty-join-map [] h = cc
is_empty-join-map (e ∷ es) h = is_empty-join e es

trim_question-append : (k s : Bytes) → k ≢ [] → Lacks b'?' k → trim_question (k ++ s) ≡ k ++ s
unfolding trim_question
trim_question-append [] s named h = absurd (named refl)
trim_question-append (c ∷ k) s named (h, _) = ground arith

trim_question-append_append :
    (k s t : Bytes) → k ≢ [] → Lacks b'?' k → trim_question ((k ++ s) ++ t) ≡ (k ++ s) ++ t
unfolding trim_question
trim_question-append_append [] s t named h = absurd (named refl)
trim_question-append_append (c ∷ k) s t named (h, _) = ground arith

pub split-append :
    (path rest : Bytes) → Lacks b'?' path → split (path ++ b'?' ∷ rest) ≡ (path, rest)
unfolding split
split-append path rest h = rw (cut_byte_first b'?' path rest h, split) refl

pub trim_question-join :
    (es : List Entry)
    → All Encodes es
    → trim_question (join (b'&' ∷ []) (map part es)) ≡ join (b'&' ∷ []) (map part es)
unfolding trim_question join
trim_question-join [] h = refl
trim_question-join (e ∷ []) (h, _) = trim_question-append e.key _ h.named h.unmarked_key
trim_question-join (e ∷ e' ∷ es) (h, _) =
    trim_question-append_append e.key _ _ h.named h.unmarked_key
