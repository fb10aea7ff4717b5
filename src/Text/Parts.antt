-- ===== src/Text/Parts.antt =====
-- Splitting what was joined, and trimming what was padded.
use async_long_request_proxy.Prelude.{
  ℕ, ◌≡◌, ◌≢◌, refl, ap, ◌∙◌, true, false, List, [], ◌∷◌, ◌++◌, nat_eq, All, arith,
}
use async_long_request_proxy.Text.{
  Text, is_white_space, trim_start, before_end, trim_end, trim, split,
}

abbrev pub Lacks : ℕ → Text → Type 0
Lacks separator = All (λ c. nat_eq c separator ≡ false)

abbrev pub IsWhite : Text → Type 0
IsWhite = All (λ c. is_white_space c ≡ true)

abbrev pub IsDense : Text → Type 0
IsDense = All (λ c. is_white_space c ≡ false)

-- parts.join(separator)
abbrev pub join : ℕ → Text → List Text → Text
join separator t [] = t
join separator t (u ∷ us) = t ++ separator ∷ join separator u us

split_none : (separator : ℕ) (t : Text) → Lacks separator t → split separator t ≡ t ∷ []
unfolding split
split_none separator [] h = refl
split_none separator (c ∷ t) h = rw (h.0, split_none separator t h.1) refl

split_first :
    (separator : ℕ) (t s : Text)
    → Lacks separator t
    → split separator (t ++ separator ∷ s) ≡ t ∷ split separator s
unfolding split
split_first separator [] s h = ground arith
split_first separator (c ∷ t) s h = rw (h.0, split_first separator t s h.1) refl

pub split-join :
    (separator : ℕ) (t : Text) (ts : List Text)
    → All (Lacks separator) (t ∷ ts)
    → split separator (join separator t ts) ≡ t ∷ ts
split-join separator t [] h = split_none separator t h.0
split-join separator t (u ∷ us) h =
    split_first separator t _ h.0 ∙ ap (λ us. t ∷ us) (split-join separator u us h.1)

trim_start-white : (w s : Text) → IsWhite w → trim_start (w ++ s) ≡ trim_start s
unfolding trim_start
trim_start-white [] s h = refl
trim_start-white (c ∷ w) s h = rw h.0 (trim_start-white w s h.1)

trim_end-white : (w : Text) → IsWhite w → trim_end w ≡ []
unfolding trim_end
trim_end-white [] h = refl
trim_end-white (c ∷ w) h = rw (trim_end-white w h.1, h.0) refl

pub before_end-dense : (c : ℕ) (s : Text) → is_white_space c ≡ false → before_end c s ≡ c ∷ s
before_end-dense c [] h = rw h refl
before_end-dense c (d ∷ s) h = refl

trim_end-dense : (s w : Text) → IsDense s → IsWhite w → trim_end (s ++ w) ≡ s
unfolding trim_end
trim_end-dense [] w h k = trim_end-white w k
trim_end-dense (c ∷ s) w h k = rw (trim_end-dense s w h.1 k) (before_end-dense c s h.0)

-- White space around a text that has none within it is trimmed away.
pub trim_around :
    (v s w : Text) → IsWhite v → s ≢ [] → IsDense s → IsWhite w → trim (v ++ (s ++ w)) ≡ s
trim_around v [] w hv ne hs hw = absurd (ne refl)
trim_around v (c ∷ s) w hv ne hs hw =
    let first : trim_start ((c ∷ s) ++ w) ≡ (c ∷ s) ++ w = unfold trim_start in rw (hs.0) refl in
    ap trim_end (trim_start-white v ((c ∷ s) ++ w) hv ∙ first) ∙ trim_end-dense (c ∷ s) w hs hw
