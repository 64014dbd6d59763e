-- ===== src/Strings/Trim.antt =====
-- strings.TrimSpace leaves no white space at either end.
use minidp.Base.{String, ◌==◌, ◌≡◌, refl, false, ◌&&◌, inl, inr, Bool-cases}
use minidp.Strings.{is_space, trim_left, trim_right, trim_space}

trim_right_idem : (s : String) → trim_right (trim_right s) ≡ trim_right s
unfolding trim_right
trim_right_idem String.[] = refl
trim_right_idem (String.◌∷◌ c s) = elim (Bool-cases (is_space c && trim_right s == "")) [
  | inl e ↦ (rw e refl)
  | inr e ↦ rw (e, trim_right_idem s, e) refl
]

-- Empty, or a text that begins with no white space.
Starts : String → Type 0
Starts String.[] = Unit
Starts (String.◌∷◌ c s) = is_space c ≡ false

trim_left-Starts : (s : String) → Starts (trim_left s)
unfolding trim_left Starts
trim_left-Starts String.[] = tt
trim_left-Starts (String.◌∷◌ c s) = elim (Bool-cases (is_space c)) [
  | inl e ↦ rw e (trim_left-Starts s)
  | inr e ↦ rw e e
]

trim_left-right : (s : String) → Starts s → trim_left (trim_right s) ≡ trim_right s
unfolding trim_left trim_right Starts
trim_left-right String.[] h = refl
trim_left-right (String.◌∷◌ c s) h = rw (h, h) refl

-- What is trimmed is not changed by trimming it again.
pub trim_space_idem : (s : String) → trim_space (trim_space s) ≡ trim_space s
unfolding trim_space
trim_space_idem s =
    rw (trim_left-right (trim_left s) (trim_left-Starts s)) (trim_right_idem (trim_left s))
