-- ===== src/LinkedList.antt =====
-- libwget/list.c on a store: an address is a positive number and NULL is 0, each node has its fields `next` and
-- `prev` and the bytes behind them, and `root` is the variable of the caller that `list` points to. What
-- `wget_malloc` returns is an argument. Memory is not freed.
pub mod Ring
pub mod Insert
pub mod Prepend
pub mod Remove
pub mod Walk
mod Tests
use wget.Prelude.{
  ℕ, zero, suc, ℤ, pos, negsuc, false, Bool, not, ◌&&◌, Option, none, some, ◌==◌, if◌then◌else◌,
  Bytes,
}

-- the fields of all nodes, and the pointer to the list
pub record Store : Type 0 where
  pub next : ℕ → ℕ
  pub prev : ℕ → ℕ
  pub value : ℕ → Bytes
  pub root : ℕ

-- what a `wget_list_t **` points to: the pointer to the list, or the field `prev` of a node
pub data Place : Type 0 where
  root_place : Place
  prev_place : ℕ → Place

abbrev pub update : {A : Type 0} → (ℕ → A) → ℕ → A → ℕ → A
update f p v q = if q == p then v else f q

abbrev pub set_next : ℕ → ℕ → Store → Store
set_next p v s = record s { next = update s.next p v }

abbrev pub set_prev : ℕ → ℕ → Store → Store
set_prev p v s = record s { prev = update s.prev p v }

-- `memcpy(node + 1, data, size)`
abbrev pub set_value : ℕ → Bytes → Store → Store
set_value p v s = record s { value = update s.value p v }

-- `*list`
abbrev pub read : Place → Store → ℕ
read root_place s = s.root
read (prev_place p) s = s.prev p

abbrev pub write : Place → ℕ → Store → Store
write root_place v s = record s { root = v }
write (prev_place p) v s = set_prev p v s

-- The four assignments of `wget_list_append` to a list that is not empty, in their order: each reads `*list`
-- anew.
abbrev pub link_next : Place → ℕ → Store → Store
link_next place node s = set_next node (read place s) s

abbrev pub link_prev : Place → ℕ → Store → Store
link_prev place node s = set_prev node (s.prev (read place s)) s

abbrev pub link_last : Place → ℕ → Store → Store
link_last place node s = set_next (s.prev (read place s)) node s

abbrev pub link_first : Place → ℕ → Store → Store
link_first place node s = set_prev (read place s) node s

-- `wget_list_append`
unfoldable pub list_append : Place → ℕ → Bytes → Store → Store
list_append place node text s =
    if read place s == 0
    then set_next node node (set_prev node node (write place node (set_value node text s)))
    else link_first place node
        (link_last place node (link_prev place node (link_next place node (set_value node text s))))

-- `wget_list_prepend`
unfoldable pub list_prepend : ℕ → Bytes → Store → Store
list_prepend node text s =
    if s.root == 0
    then list_append root_place node text s
    else list_append (prev_place s.root) node text s

-- `node->prev->next = node->next; node->next->prev = node->prev;`
abbrev pub unlink : ℕ → Store → Store
unlink node s =
    let t = set_next (s.prev node) (s.next node) s in set_prev (t.next node) (t.prev node) t

-- `if (*list && node == *list) *list = next`
abbrev pub move_root : ℕ → ℕ → Store → Store
move_root node next s = if not (s.root == 0) && node == s.root then record s { root = next } else s

-- `wget_list_remove`
unfoldable pub list_remove : ℕ → Store → Store
list_remove node s =
    if s.prev node == s.next node && node == s.prev node
    then move_root node 0 s
    else move_root node ((unlink node s).next node) (unlink node s)

-- `wget_list_getfirst`, `wget_list_getlast`
unfoldable pub getfirst : Store → Option ℕ
getfirst s = if s.root == 0 then none else some s.root

unfoldable pub getlast : Store → Option ℕ
getlast s = if s.root == 0 then none else some (s.prev s.root)

-- `wget_list_getnext`
unfoldable pub getnext : ℕ → Store → Option ℕ
getnext elem s = if elem == 0 then none else some (s.next elem)

abbrev pub is_zero : ℤ → Bool
is_zero (pos n) = n == 0
is_zero (negsuc n) = false

-- The loop of `wget_list_browse` from `cur` on: `visit` is the callback, with its context before and behind a call.
unfoldable pub browse_from : {C : Type 0} → (C → Bytes → C × ℤ) → ℕ → ℕ → ℕ → C → Store → C × ℤ
browse_from visit zero end cur context s = visit context (s.value cur)
browse_from visit (suc fuel) end cur context s =
    let (changed, ret) = visit context (s.value cur) in
    let rest = browse_from visit fuel end (s.next cur) changed s in
    if is_zero ret && not (cur == end) then rest else (changed, ret)

-- `wget_list_browse`
unfoldable pub list_browse : {C : Type 0} → (C → Bytes → C × ℤ) → ℕ → C → Store → C × ℤ
list_browse visit fuel context s =
    if s.root == 0
    then (context, negsuc 0)
    else browse_from visit fuel (s.prev s.root) s.root context s

-- `wget_list_free`
unfoldable pub list_free : ℕ → Store → Store
list_free zero s = s
list_free (suc fuel) s =
    let rest = list_free fuel (list_remove s.root s) in if s.root == 0 then s else rest
