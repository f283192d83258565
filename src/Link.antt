-- ===== src/Link.antt =====
-- sf_linkmodule.c and sf_linkmodule.h: the intrusive lists that every other part stores its
-- records in. A node is known by its address, and the links of all nodes are one store.
-- A read or a write through NULL is a fault; nodes come from pools that outlive the lists, so an
-- address that is not NULL is always a node.
pub mod Cycle
pub mod Append
pub mod Remove
pub mod Single
pub mod Walk
use spiderframe.Base.{ℕ, zero, suc, Bool, Option, none, some, ◌==◌, if◌then◌else◌}

abbrev pub Ptr : Type 0
Ptr = ℕ

abbrev pub null : Ptr
null = 0

-- `t_dual_link` of every node; a `t_single_link` uses `next` alone.
pub record Links : Type 0 where
  pub next : Ptr → Ptr
  pub prev : Ptr → Ptr

pub data Run (A : Type 0) : Type 0 where
  fault out_of_fuel : Run A
  ok : A → Links → Run A

-- What reads and writes the links, and returns an `A`.
abbrev pub Cmd : Type 0 → Type 0
Cmd A = Links → Run A

abbrev pub pure : {A : Type 0} → A → Cmd A
pure a links = ok a links

abbrev pub and_then : {A B : Type 0} → Run A → (A → Cmd B) → Run B
and_then fault next = fault
and_then out_of_fuel next = out_of_fuel
and_then (ok a links) next = next a links

infixl 5 ◌>>=◌ ◌>>◌
abbrev pub ◌>>=◌ : {A B : Type 0} → Cmd A → (A → Cmd B) → Cmd B
first >>= next = λ links. and_then (first links) next

abbrev pub ◌>>◌ : {A B : Type 0} → Cmd A → Cmd B → Cmd B
first >> second = λ links. and_then (first links) (λ done. second)

abbrev pub update : (Ptr → Ptr) → Ptr → Ptr → Ptr → Ptr
update f p v a = if a == p then v else f a

-- `p->next` and `p->prev`, read and written
abbrev pub get_next : Ptr → Cmd Ptr
get_next p h = if p == null then fault else ok (h.next p) h

abbrev pub get_prev : Ptr → Cmd Ptr
get_prev p h = if p == null then fault else ok (h.prev p) h

abbrev pub set_next : Ptr → Ptr → Cmd (Unit {0})
set_next p q h = if p == null then fault else ok tt (record h { next = update h.next p q })

abbrev pub set_prev : Ptr → Ptr → Cmd (Unit {0})
set_prev p q h = if p == null then fault else ok tt (record h { prev = update h.prev p q })

-- The two pointers of a queue, passed by address in the source.
pub record Queue : Type 0 where
  pub root : Ptr
  pub tail : Ptr

unfoldable pub single_link_append : Queue → Ptr → Cmd Queue
single_link_append q item = do
  set_next item null
  if q.tail == null
      then pure (record { root = item; tail = item })
      else do set_next q.tail item; pure (record q { tail = item })

-- The removed node, or NULL, and the queue after it.
unfoldable pub single_link_next : Queue → Cmd (Ptr × Queue)
single_link_next q = if q.root == null then pure (null, q) else do
  n ← get_next q.root
  pure (q.root, record { root = n; tail = if n == null then null else q.tail })

-- `*Root` after the call; the C function returns `Item` itself.
unfoldable pub dual_link_append : Ptr → Ptr → Cmd Ptr
dual_link_append root item =
    if root == null then (do set_next item item; set_prev item item; pure item) else do
      set_next item root
      set_prev item (← get_prev root)
      set_next (← get_prev root) item
      set_prev root item
      pure root

unfoldable pub dual_link_push : Ptr → Ptr → Cmd Ptr
unfolding dual_link_append
dual_link_push root item = do dual_link_append root item; pure item

-- `*Root` after the call.
unfoldable pub dual_link_remove : Ptr → Ptr → Cmd Ptr
dual_link_remove root item = do
  p ← get_prev item
  n ← get_next item
  set_next p n
  n' ← get_next item
  p' ← get_prev item
  set_prev n' p'
  if root == item then (do m ← get_next item; pure (if m == item then null else m)) else pure root
