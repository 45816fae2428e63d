-- ===== src/Libc/Text.antt =====
-- `strcmp`, of which the program uses only whether it returns 0.
use monitor_program.Base.{◌≡◌, refl, arith, Bool, true, false, [], ◌∷◌, Bytes, ◌==◌, if◌then◌else◌}

-- strcmp(s, t) == 0
unfoldable pub strcmp_eq : Bytes → Bytes → Bool
strcmp_eq [] [] = true
strcmp_eq [] (b ∷ t) = false
strcmp_eq (a ∷ s) [] = false
strcmp_eq (a ∷ s) (b ∷ t) = let more = strcmp_eq s t in if a == b then more else false

pub strcmp_eq_refl : (s : Bytes) → strcmp_eq s s ≡ true
unfolding strcmp_eq
strcmp_eq_refl [] = refl
strcmp_eq_refl (a ∷ s) = ground (arith, strcmp_eq_refl s)

pub strcmp_eq_sound : (s t : Bytes) → strcmp_eq s t ≡ true → s ≡ t
unfolding strcmp_eq
strcmp_eq_sound [] [] h = refl
strcmp_eq_sound [] (b ∷ t) h = ground arith
strcmp_eq_sound (a ∷ s) [] h = ground arith
strcmp_eq_sound (a ∷ s) (b ∷ t) h = ground (arith, strcmp_eq_sound s t)
