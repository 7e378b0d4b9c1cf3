-- ===== src/Storage/Flags.antt =====
-- The flag functions of internal/storage/messages.go. A message's flags are one text, words between
-- white space.
pub mod Laws
use ghostmail.Prelude.{
  List, [], ◌∷◌, ◌++◌, Bool, true, false, Bytes, codes, equal, any, if◌then◌else◌, ◌≡◌, refl,
}
use ghostmail.Text.{fields, fields_from, is_space, join, equal_fold, to_lower, lower}

-- The loop of HasFlag.
unfoldable pub has_flag : Bytes → Bytes → Bool
has_flag flags flag = any (λ f. equal_fold f flag) (fields flags)

unfoldable pub add_flag : Bytes → Bytes → Bytes
add_flag flags flag =
    if has_flag flags flag
    then flags
    else if equal flags []
    then flag
    else flags ++ (codes " " ++ flag)

-- The loop of RemoveFlag over the words of the text.
unfoldable pub without_flag : List Bytes → Bytes → List Bytes
without_flag [] flag = []
without_flag (f ∷ parts) flag =
    let rest = without_flag parts flag in if equal_fold f flag then rest else f ∷ rest

unfoldable pub remove_flag : Bytes → Bytes → Bytes
remove_flag flags flag = join (without_flag (fields flags) flag) (codes " ")

added : add_flag (codes "\\Seen") (codes "\\Deleted") ≡ codes "\\Seen \\Deleted"
unfolding add_flag has_flag equal_fold to_lower lower equal fields fields_from is_space
added = refl

removed : remove_flag (codes "\\seen \\Flagged") (codes "\\Seen") ≡ codes "\\Flagged"
unfolding remove_flag without_flag equal_fold to_lower lower equal fields fields_from is_space join
removed = refl
