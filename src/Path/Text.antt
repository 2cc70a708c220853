-- ===== src/Path/Text.antt =====
-- `strcmp` of kernel/include/micro/stdlib.h as a test for equality, and the bounds of `strcspn`.
use micro.Prelude.{◌≤◌, ◌≡◌, refl, ◌↔◌, true, [], ◌∷◌, arith, length}
use micro.Path.{Text, strcmp, strcspn}

pub strcmp_iff : (a b : Text) → (strcmp a b ≡ true) ↔ (a ≡ b)
unfolding strcmp
strcmp_iff [] [] = (λ _. refl, λ _. refl)
strcmp_iff [] (b ∷ bs) = ground arith
strcmp_iff (a ∷ as') [] = ground arith
strcmp_iff (a ∷ as') (b ∷ bs) = ground (arith, strcmp_iff as' bs)

pub length-strcspn : (s d : Text) → strcspn s d ≤ length s
unfolding strcspn
length-strcspn [] d = omega arith
length-strcspn (c ∷ s) d = ground (arith, length-strcspn s d)
