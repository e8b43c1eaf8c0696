-- ===== src/LinkedList.antt =====
-- lib/kernel/list.c: doubly linked lists on a heap of links. Addresses are numbers, 0 is a null
-- pointer. A `struct list` at address `list` has its head there and its tail 8 bytes behind. A `none` is a
-- failed ASSERT, or a loop that has run out of fuel: each round of a loop takes one from it.
-- `less` is the comparison with its auxiliary data.
pub mod Chains
pub mod Cut
pub mod Insert
pub mod Remove
pub mod Queue
pub mod Refine
pub mod Order
pub mod Extrema
mod Tests
use cs162proj.Prelude.{
  ℕ, zero, suc, ◌+◌, Option, none, some, Bool, true, false, not, ◌&&◌, ◌||◌, ltb, ◌==◌,
  if◌then◌else◌, ◌>>=◌, ◌>>◌, assert,
}

-- The two fields of the element at each address.
pub record Heap : Type 0 where
  pub prev : ℕ → ℕ
  pub next : ℕ → ℕ

abbrev pub set_prev : Heap → ℕ → ℕ → Heap
set_prev h e v = record h { prev = λ x. if x == e then v else h.prev x }

abbrev pub set_next : Heap → ℕ → ℕ → Heap
set_next h e v = record h { next = λ x. if x == e then v else h.next x }

-- `&list->tail`
abbrev pub tail_of : ℕ → ℕ
tail_of list = list + 8

abbrev pub is_null : ℕ → Bool
is_null p = p == 0

unfoldable pub is_head : Heap → ℕ → Bool
is_head h elem = not (is_null elem) && is_null (h.prev elem) && not (is_null (h.next elem))

unfoldable pub is_interior : Heap → ℕ → Bool
is_interior h elem =
    not (is_null elem) && not (is_null (h.prev elem)) && not (is_null (h.next elem))

unfoldable pub is_tail : Heap → ℕ → Bool
is_tail h elem = not (is_null elem) && not (is_null (h.prev elem)) && is_null (h.next elem)

pub list_init : ℕ → Heap → Option Heap
list_init list h = do
  assert (not (is_null list))
  let h1 = set_prev h list 0
  let h2 = set_next h1 list (tail_of list)
  let h3 = set_prev h2 (tail_of list) list
  some (set_next h3 (tail_of list) 0)

pub list_begin : Heap → ℕ → Option ℕ
list_begin h list = do assert (not (is_null list)); some (h.next list)

pub list_next : Heap → ℕ → Option ℕ
unfolding is_head is_interior
list_next h elem = do assert (is_head h elem || is_interior h elem); some (h.next elem)

pub list_end : ℕ → Option ℕ
list_end list = do assert (not (is_null list)); some (tail_of list)

pub list_rbegin : Heap → ℕ → Option ℕ
list_rbegin h list = do assert (not (is_null list)); some (h.prev (tail_of list))

pub list_prev : Heap → ℕ → Option ℕ
unfolding is_interior is_tail
list_prev h elem = do assert (is_interior h elem || is_tail h elem); some (h.prev elem)

-- `list_rend` and `list_head`.
pub list_head : ℕ → Option ℕ
list_head list = do assert (not (is_null list)); some list

-- The four assignments of `list_insert`.
pub insert_links : ℕ → ℕ → Heap → Heap
insert_links before elem h =
    let h1 = set_prev h elem (h.prev before) in
    let h2 = set_next h1 elem before in
    let h3 = set_next h2 (h2.prev before) elem in set_prev h3 before elem

pub list_insert : ℕ → ℕ → Heap → Option Heap
list_insert before elem h = do
  assert (is_interior h before || is_tail h before)
  assert (not (is_null elem))
  some (insert_links before elem h)

-- `first` is not `last`, and `last` is the last element itself.
pub splice_links : ℕ → ℕ → ℕ → Heap → Heap
splice_links before first last h =
    let h1 = set_next h (h.prev first) (h.next last) in
    let h2 = set_prev h1 (h1.next last) (h1.prev first) in
    let h3 = set_prev h2 first (h2.prev before) in
    let h4 = set_next h3 last before in
    let h5 = set_next h4 (h4.prev before) first in set_prev h5 before last

pub list_splice : ℕ → ℕ → ℕ → Heap → Option Heap
unfolding splice_links
list_splice before first last h = do
  assert (is_interior h before || is_tail h before)
  let moved = do
    last' ← list_prev h last
    assert (is_interior h first)
    assert (is_interior h last')
    some (splice_links before first last' h)
  if first == last then some h else moved

pub list_push_front : ℕ → ℕ → Heap → Option Heap
list_push_front list elem h = do front ← list_begin h list; list_insert front elem h

pub list_push_back : ℕ → ℕ → Heap → Option Heap
list_push_back list elem h = do end ← list_end list; list_insert end elem h

pub remove_links : ℕ → Heap → Heap
remove_links elem h =
    let h1 = set_next h (h.prev elem) (h.next elem) in set_prev h1 (h1.next elem) (h1.prev elem)

pub list_remove : ℕ → Heap → Option (Heap × ℕ)
list_remove elem h = do
  assert (is_interior h elem)
  let h' = remove_links elem h
  some (h', h'.next elem)

pub list_empty : Heap → ℕ → Option Bool
list_empty h list = do front ← list_begin h list; end ← list_end list; some (front == end)

pub list_front : Heap → ℕ → Option ℕ
list_front h list = do empty ← list_empty h list; assert (not empty); some (h.next list)

pub list_back : Heap → ℕ → Option ℕ
list_back h list = do empty ← list_empty h list; assert (not empty); some (h.prev (tail_of list))

pub list_pop_front : ℕ → Heap → Option (Heap × ℕ)
list_pop_front list h = do
  front ← list_front h list
  (h', _) ← list_remove front h
  some (h', front)

pub list_pop_back : ℕ → Heap → Option (Heap × ℕ)
list_pop_back list h = do back ← list_back h list; (h', _) ← list_remove back h; some (h', back)

-- The loop of `list_size` from `e` on.
pub size_loop : ℕ → Heap → ℕ → ℕ → ℕ → Option ℕ
size_loop zero h list e cnt = none
size_loop (suc fuel) h list e cnt = elim (e == tail_of list) [
  | true ↦ some cnt
  | false ↦ do e' ← list_next h e; size_loop fuel h list e' (cnt + 1)
]

pub list_size : ℕ → Heap → ℕ → Option ℕ
unfolding size_loop
list_size fuel h list = do front ← list_begin h list; size_loop fuel h list front 0

-- `swap (&e->prev, &e->next)`
abbrev pub swap_links : Heap → ℕ → Heap
swap_links h e = set_next (set_prev h e (h.next e)) e (h.prev e)

pub reverse_loop : ℕ → ℕ → ℕ → Heap → Option Heap
reverse_loop zero list e h = none
reverse_loop (suc fuel) list e h = elim (e == tail_of list) [
  | true ↦ some h
  | false ↦ let h' = swap_links h e in reverse_loop fuel list (h'.prev e) h'
]

-- The two swaps behind the loop: of the ends, then of the links of the new ends.
pub swap_ends : ℕ → Heap → Heap
swap_ends list h =
    let front = h.next list in
    let back = h.prev (tail_of list) in
    let h1 = set_prev (set_next h list back) (tail_of list) front in
    let first = h1.next list in
    let last = h1.prev (tail_of list) in
    let p = h1.prev first in let n = h1.next last in set_next (set_prev h1 first n) last p

pub list_reverse : ℕ → ℕ → Heap → Option Heap
unfolding reverse_loop swap_ends
list_reverse fuel list h = do
  empty ← list_empty h list
  let reversed = do
    front ← list_begin h list
    h' ← reverse_loop fuel list front h
    some (swap_ends list h')
  if empty then some h else reversed
