-- ===== src/AppRuntime/View.antt =====
-- `application_view_t` and the `application_view_*` functions: three rows of 22 characters.
use deus_os_stm.Common.{
  ℕ, zero, suc, Bool, true, false, ◌&&◌, Option, none, some, List, [], ◌∷◌, map, get_or, set,
  replicate, leb, ◌==◌, if◌then◌else◌,
}

abbrev pub view_rows : ℕ
view_rows = 3

abbrev pub view_columns : ℕ
view_columns = 21

abbrev pub storage_columns : ℕ
storage_columns = 22

abbrev pub View : Type 0
View = List (List ℕ)

-- `application_view_clear`
abbrev pub view_clear : View
view_clear = replicate view_rows (replicate storage_columns 0)

-- The loops of `application_view_set_row` from one column on: the columns that may still be written,
-- the text from here and the row from here. The text ends with its list or with a zero.
unfoldable pub copy_text : ℕ → List ℕ → List ℕ → List ℕ × Bool
copy_text columns [] row = (map (λ _. 0) row, true)
copy_text columns (zero ∷ text) row = (map (λ _. 0) row, true)
copy_text zero (suc c ∷ text) row = (row, false)
copy_text (suc columns) (suc c ∷ text) [] = ([], false)
copy_text (suc columns) (suc c ∷ text) (_ ∷ row) =
    let rest = copy_text columns text row in (suc c ∷ rest.0, rest.1)

-- `application_view_set_row`
unfoldable pub view_set_row : View → ℕ → Option (List ℕ) → View × Bool
view_set_row v row none = (v, false)
view_set_row v row (some text) =
    let r = copy_text view_columns text (get_or v row []) in
    if leb view_rows row then (v, false) else (set v row r.0, r.1)

unfoldable pub row_equal : List ℕ → List ℕ → Bool
row_equal [] [] = true
row_equal (x ∷ xs) (y ∷ ys) = (x == y) && row_equal xs ys
row_equal _ _ = false

-- `application_view_equal`
unfoldable pub view_equal : View → View → Bool
view_equal [] [] = true
view_equal (x ∷ xs) (y ∷ ys) = row_equal x y && view_equal xs ys
view_equal _ _ = false
