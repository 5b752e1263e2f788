-- ===== src/NodePool.antt =====
-- a2-phase2/list.h and the pools that Monitor.c declares: nodes and lists in two arrays, linked by
-- indices, and the commands that read and write them.
pub mod Alloc
pub mod Add
pub mod Move
pub mod Remove
pub mod Links
pub mod Shape
pub mod Queues
pub mod Tests
use monitors_and_ipc.Prelude.{ℕ, Bool, Option, none, some, update, ltb, if◌then◌else◌}

abbrev pub max_lists : ℕ
max_lists = 20

abbrev pub max_nodes : ℕ
max_nodes = 1000

-- An index into a pool; `none` is -1.
abbrev pub Index : Type 0
Index = Option ℕ

-- A `void *` handed in by the client; `none` is NULL.
abbrev pub Item : Type 0
Item = Option ℕ

pub record Node : Type 0 where
  pub item : Item
  pub next : Index
  pub prev : Index
  pub link : Index

-- `LIST`. The flags `before` and `after` hold 0 or 1.
pub record LinkedList : Type 0 where
  pub head : Index
  pub tail : Index
  pub curr : Index
  pub count : ℕ
  pub before : Bool
  pub after : Bool
  pub link : Index

pub record Pool : Type 0 where
  pub initialized : Bool
  pub free_list_head : Index
  pub free_node_head : Index
  pub pool_lists : ℕ → LinkedList
  pub pool_nodes : ℕ → Node

-- `fault` is an access outside `pool_nodes` or through NULL; `out_of_fuel` a loop that goes on.
pub data Run (A : Type 0) : Type 0 where
  done : A → Pool → Run A
  fault : Run A
  out_of_fuel : Run A

abbrev pub Cmd : Type 0 → Type 0
Cmd A = Pool → Run A

abbrev pub pure : {A : Type 0} → A → Cmd A
pure = done

module _ {A B : Type 0} where
  abbrev pub and_then : Run A → (A → Cmd B) → Run B
  and_then (done a p) k = k a p
  and_then fault k = fault
  and_then out_of_fuel k = out_of_fuel

  infixl 5 ◌>>=◌ ◌>>◌
  abbrev pub ◌>>=◌ : Cmd A → (A → Cmd B) → Cmd B
  m >>= k = λ p. and_then (m p) k

  abbrev pub ◌>>◌ : Cmd A → Cmd B → Cmd B
  m >> n = m >>= λ _. n

abbrev pub when : Bool → Cmd (Unit {0}) → Cmd (Unit {0})
when b m = if b then m else pure tt

-- `pool_nodes[i]`, read.
abbrev pub load : Index → Cmd Node
load none p = fault
load (some i) p = if ltb i max_nodes then done (p.pool_nodes i) p else fault

-- `pool_nodes[i]`, changed in one field by `f`.
abbrev pub change : Index → (Node → Node) → Cmd (Unit {0})
change none f p = fault
change (some i) f p =
    if ltb i max_nodes
    then done tt (record p { pool_nodes = update p.pool_nodes i (f (p.pool_nodes i)) })
    else fault

abbrev pub set_item : Index → Item → Cmd (Unit {0})
set_item i x = change i λ n. record n { item = x }

abbrev pub set_next : Index → Index → Cmd (Unit {0})
set_next i j = change i λ n. record n { next = j }

abbrev pub set_prev : Index → Index → Cmd (Unit {0})
set_prev i j = change i λ n. record n { prev = j }

abbrev pub set_link : Index → Index → Cmd (Unit {0})
set_link i j = change i λ n. record n { link = j }

-- A `LIST *` that is not NULL points to the element `l` of `pool_lists`.
abbrev pub get_list : ℕ → Cmd LinkedList
get_list l p = done (p.pool_lists l) p

abbrev pub change_list : ℕ → (LinkedList → LinkedList) → Cmd (Unit {0})
change_list l f p = done tt (record p { pool_lists = update p.pool_lists l (f (p.pool_lists l)) })

abbrev pub get_pool : Cmd Pool
get_pool p = done p p

abbrev pub change_pool : (Pool → Pool) → Cmd (Unit {0})
change_pool f p = done tt (f p)

-- An item as a pointer that is not NULL: reading through NULL is a fault.
abbrev pub deref : Item → Cmd ℕ
deref none = λ p. fault
deref (some x) = pure x
