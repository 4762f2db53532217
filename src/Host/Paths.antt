-- ===== src/Host/Paths.antt =====
-- Which ids keep the files of a sandbox apart: the paths of internal/orchestrator/orchestrator.go.
use sandboxed_ai_agent_orche.Prelude.{
  ◌≡◌, Bool, true, false, ◌&&◌, ◌||◌, [], ◌∷◌, is_empty, ◌==◌, All, if◌then◌else◌,
}
use sandboxed_ai_agent_orche.Prelude.Text.{Text, codes, text_eq}
use sandboxed_ai_agent_orche.Host.{Location}

-- An id that is the name of a file: not empty, no slash, neither "." nor "..".
pub record IsPlain (id : Text) : Type 0 where
  pub some_byte : is_empty id ≡ false
  pub no_slash : All (λ b. (b == 47) ≡ false) id
  pub not_dot : text_eq id (codes ".") ≡ false
  pub not_dots : text_eq id (codes "..") ≡ false

-- The location `y` is `x` or lies below it.
unfoldable pub same_location : Location → Location → Bool
same_location [] [] = true
same_location (a ∷ x) (b ∷ y) = let rest = same_location x y in text_eq a b && rest
same_location _ _ = false

unfoldable pub within : Location → Location → Bool
unfolding same_location
within x [] = same_location x []
within x (b ∷ y) = let rest = within x y in same_location x (b ∷ y) || rest

-- os.RemoveAll, on the set of the directories that are there.
unfoldable pub remove_all : Location → (Location → Bool) → Location → Bool
unfolding within
remove_all x there y = if within x y then false else there y
