-- ===== src/Api/Tests.antt =====
-- Tests of the interface, on the strings "ab" and "c".
use circle.Prelude.{ℕ, ◌≡◌, refl, some, true, false, List, [], ◌∷◌, length}
use circle.Queue.{success}
use circle.Queue.Layout.{contents, IsValid}
use circle.Api.{c_dequeue}
use circle.Api.Items.{peek_then_take}
use circle.Examples.{two_items, two_items-IsValid}

abbrev c_item : List ℕ
c_item = 99 ∷ []

abbrev ab_item : List ℕ
ab_item = 97 ∷ 98 ∷ []

peek_then_take_example :
    let (s, _, size, q1) = c_dequeue false (some 0) two_items in
    (s ≡ success)
    × (size ≡ some (length c_item))
    × (q1 ≡ two_items)
    × (let (t, bytes, told, q2) = c_dequeue true size q1 in
        (t ≡ success)
        × (bytes ≡ c_item)
        × (told ≡ size)
        × IsValid q2
        × (contents q2 ≡ ab_item ∷ []))
unfolding circle.Buffer.slice
peek_then_take_example = peek_then_take two_items c_item (ab_item ∷ []) 0 two_items-IsValid refl
