-- ===== src/AppRuntime/Rows.antt =====
-- Texts in the rows of a view.
use deus_os_stm.Common.{
  ℕ, zero, suc, ◌-◌, ◌≤◌, ◌<◌, ◌≡◌, refl, ap, true, false, some, List, [], ◌∷◌, ◌++◌, map, get_or,
  set, length, replicate, arith, All,
}
use deus_os_stm.AppRuntime.View.{
  View, view_rows, view_columns, storage_columns, copy_text, view_set_row,
}

abbrev pub IsCharacter : ℕ → Type 0
IsCharacter c = 0 < c

zeros : (row : List ℕ) → map {B = ℕ} (λ _. 0) row ≡ replicate (length row) 0
zeros [] = refl
zeros (_ ∷ row) = ap (◌∷◌ 0) (zeros row)

copy_text_fits :
    (columns : ℕ) (text row : List ℕ)
    → All IsCharacter text
    → length text ≤ columns
    → columns < length row
    → copy_text columns text row ≡ (text ++ replicate (length row - length text) 0, true)
unfolding copy_text
copy_text_fits columns [] row a h k =
    let whole : length row - 0 ≡ length row = omega arith in rw (zeros row, whole) refl
copy_text_fits columns (zero ∷ text) row a h k = absurd (omega arith)
copy_text_fits zero (suc c ∷ text) row a h k = absurd (omega arith)
copy_text_fits (suc columns) (suc c ∷ text) [] a h k = absurd (omega arith)
copy_text_fits (suc columns) (suc c ∷ text) (_ ∷ row) a h k =
    let less : suc (length row) - suc (length text) ≡ length row - length text = omega arith in
    rw (copy_text_fits columns text row a.1 (omega arith) (omega arith), less) refl

copy_text_overflows :
    (columns : ℕ) (text row : List ℕ)
    → All IsCharacter text
    → columns < length text
    → (copy_text columns text row).1 ≡ false
unfolding copy_text
copy_text_overflows columns [] row a h = absurd (omega arith)
copy_text_overflows columns (zero ∷ text) row a h = absurd (omega arith)
copy_text_overflows zero (suc c ∷ text) row a h = refl
copy_text_overflows (suc columns) (suc c ∷ text) [] a h = refl
copy_text_overflows (suc columns) (suc c ∷ text) (_ ∷ row) a h =
    copy_text_overflows columns text row a.1 (omega arith)

-- The row that shows a text: the text, and zeros up to the end of the storage.
pub row_of : List ℕ → List ℕ
row_of text = text ++ replicate (storage_columns - length text) 0

-- A text without a zero, written to one of the three rows of 22 characters: with at most 21
-- characters it replaces the row, with a zero behind it, and 1 is returned; with more, 0 is returned.
pub view_set_row_lem :
    (v : View) (row : ℕ) (text : List ℕ)
    → row < view_rows
    → length (get_or v row []) ≡ storage_columns
    → All IsCharacter text
    → (length text ≤ view_columns
        → view_set_row v row (some text) ≡ (set v row (row_of text), true))
      × (view_columns < length text → (view_set_row v row (some text)).1 ≡ false)
unfolding view_set_row row_of
view_set_row_lem v row text h k a = (λ l. fits l, λ l. overflows l)
  where
    fits :
        length text ≤ view_columns
        → view_set_row v row (some text) ≡ (set v row (row_of text), true)
    fits l =
        let written = copy_text_fits view_columns text (get_or v row []) a l (omega arith) in
        rw (written, k) (ground arith)

    overflows : view_columns < length text → (view_set_row v row (some text)).1 ≡ false
    overflows l = ground (arith, copy_text_overflows view_columns text (get_or v row []) a l)
