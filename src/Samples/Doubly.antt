-- ===== src/Samples/Doubly.antt =====
-- A doubly linked list that is built from nothing and taken apart.
use vcmalloc_bench.Base.{ℕ, ◌≡◌, refl, none, List, [], ◌∷◌}
use vcmalloc_bench.Machine.Run.{Cmd, pure, ◌>>=◌, ◌>>◌, get}
use vcmalloc_bench.Machine.Returns.{Returns, returns}
use vcmalloc_bench.DoublyLinkedList.{
  DoublyLinkedList, insert_doubly, place_from, link_in, delete_doubly, delete_first_item,
  unlink_item, print_from, reverse_print_from,
}

abbrev no_items : DoublyLinkedList
no_items = record { nodes = λ p. none; count = 0; first = 0; last = 0 }

-- What both ways through the list show after a command, with the count.
Shows : List ℕ → List ℕ → ℕ → Cmd DoublyLinkedList (Unit {0}) → Type 0
Shows xs ys n command =
    Returns {A = List ℕ × List ℕ} (λ seen s. (seen.0 ≡ xs) × (seen.1 ≡ ys) × (s.count ≡ n))
      ((do
        command
        s ← get
        there ← print_from 9 s.first
        back ← reverse_print_from 9 s.last
        pure (there, back))
        no_items)

abbrev filled : Cmd DoublyLinkedList (Unit {0})
filled = do insert_doubly 9 5 16; insert_doubly 9 8 32; insert_doubly 9 3 48; insert_doubly 9 7 64

in_order : Shows (3 ∷ 5 ∷ 7 ∷ 8 ∷ []) (8 ∷ 7 ∷ 5 ∷ 3 ∷ []) 4 filled
unfolding Shows insert_doubly place_from link_in print_from reverse_print_from
in_order = returns (refl, refl, refl)

without_middle :
    Shows (3 ∷ 5 ∷ 8 ∷ []) (8 ∷ 5 ∷ 3 ∷ []) 3 (do filled; delete_doubly 9 7; delete_doubly 9 6)
unfolding Shows insert_doubly place_from link_in print_from reverse_print_from delete_doubly
    delete_first_item unlink_item
without_middle = returns (refl, refl, refl)

without_ends : Shows (5 ∷ 7 ∷ []) (7 ∷ 5 ∷ []) 2 (do filled; delete_doubly 9 3; delete_doubly 9 8)
unfolding Shows insert_doubly place_from link_in print_from reverse_print_from delete_doubly
    delete_first_item unlink_item
without_ends = returns (refl, refl, refl)
