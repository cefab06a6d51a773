-- ===== src/ListHead.antt =====
-- include/list.h: the circular doubly linked list that every queue and table of the stack hangs
-- on, on an explicit heap of `next` and `prev` pointers. The children prove that it implements
-- the sequences by which the other modules model those queues.
pub mod Shape
pub mod Update
mod Tests
use hf_ip.Prelude.{Bool, List, [], if◌then◌else◌, suc, zero, ℕ, ◌==◌, ◌∷◌}

-- The pointers of every node; an address is a number.
pub record Links : Type 0 where
  pub next : ℕ → ℕ
  pub prev : ℕ → ℕ

-- `a->field = v`
abbrev write : (ℕ → ℕ) → ℕ → ℕ → ℕ → ℕ
write f a v x = if x == a then v else f x

abbrev pub write_next : ℕ → ℕ → Links → Links
write_next a v h = record h { next = write h.next a v }

abbrev pub write_prev : ℕ → ℕ → Links → Links
write_prev a v h = record h { prev = write h.prev a v }

unfoldable list_init : ℕ → Links → Links
list_init head h = let h1 = write_next head head h in write_prev head (h1.next head) h1

unfoldable list_add : ℕ → ℕ → Links → Links
list_add new head h =
    let h1 = write_prev (h.next head) new h in
    let h2 = write_next new (h1.next head) h1 in
    let h3 = write_prev new head h2 in write_next head new h3

unfoldable pub list_add_tail : ℕ → ℕ → Links → Links
list_add_tail new head h =
    let h1 = write_next (h.prev head) new h in
    let h2 = write_prev new (h1.prev head) h1 in
    let h3 = write_next new head h2 in write_prev head new h3

unfoldable pub list_del : ℕ → Links → Links
list_del elem h =
    let prev = h.prev elem in
    let next = h.next elem in write_prev next prev (write_next prev next h)

unfoldable pub list_empty : ℕ → Links → Bool
list_empty head h = h.next head == head

-- `list_for_each`: the nodes that the loop visits, in at most the given number of rounds.
unfoldable pub for_each : ℕ → ℕ → ℕ → Links → List ℕ
for_each zero pos head h = []
for_each (suc rounds) pos head h =
    let rest = pos ∷ for_each rounds (h.next pos) head h in if pos == head then [] else rest
