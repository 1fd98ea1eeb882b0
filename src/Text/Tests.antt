-- ===== src/Text/Tests.antt =====
-- Comparisons and copies of short strings.
use fast_ipc.Base.{ℕ, ◌≡◌, refl, List, [], ◌∷◌, negsuc}
use fast_ipc.Text.{strcmp}

abbrev hi : List ℕ
hi = b'h' ∷ b'i' ∷ []

abbrev hello : List ℕ
hello = b'h' ∷ b'e' ∷ b'l' ∷ b'l' ∷ b'o' ∷ []

strcmp_run : strcmp hello hi ≡ negsuc 3
unfolding strcmp
strcmp_run = refl
