-- ===== src/Tree.antt =====
-- What `$.prioritize` uses of jQuery: the order of elements below their parents, and one value
-- that is kept with each element. As in JQuery.antt the operations are the fields of a record, with
-- their documented behaviour as the laws.
pub mod Siblings
use benji.Prelude.{
  ℕ, ◌==◌, ◌≡◌, ◌↔◌, Bool, true, false, Option, none, some, List, Text, contains, remove, IsNodup,
  if◌then◌else◌, ◌∷◌,
}
use benji.JQuery.{Node}
use Siblings.{before, insert_behind}

pub record Tree : Type 1 where
  pub Page : Type 0
  pub children : Page → Node → List Node
  -- `$(selector)`, and `.parent()`, `.prev()` of one element
  pub query : Text → Page → List Node
  pub parent : Node → Page → Option Node
  pub prev : Node → Page → Option Node
  -- `$e.prependTo($parent)`, `$e.insertAfter($p)`
  pub prepend_to : Node → Node → Page → Page
  pub insert_after : Node → Node → Page → Page
  -- `$e.data(key)`, `$e.data(key, $p)`, `$e.removeData(key)`, for the one key
  pub data_of : Node → Page → Option Node
  pub set_data : Node → Node → Page → Page
  pub remove_data : Node → Page → Page

pub record IsTree (T : Tree) : Type 0 where
  pub nodup : (p : T.Page) (q : Node) → IsNodup (T.children p q)
  pub parent_iff :
      (e q : Node) (p : T.Page) → (T.parent e p ≡ some q) ↔ (contains (T.children p q) e ≡ true)
  pub prev-before :
      (e q : Node) (p : T.Page) → T.parent e p ≡ some q → T.prev e p ≡ before e (T.children p q)
  pub children-prepend_to :
      (e q : Node) (p : T.Page) (r : Node)
      → T.parent e p ≡ some q
      → T.children (T.prepend_to e q p) r
        ≡ (if r == q then e ∷ remove e (T.children p q) else T.children p r)
  pub children-insert_after :
      (e a q : Node) (p : T.Page) (r : Node)
      → T.parent e p ≡ some q
      → T.parent a p ≡ some q
      → (e == a) ≡ false
      → T.children (T.insert_after e a p) r
        ≡ (if r == q then insert_behind a e (remove e (T.children p q)) else T.children p r)
  pub children-set_data :
      (e v : Node) (p : T.Page) (r : Node) → T.children (T.set_data e v p) r ≡ T.children p r
  pub children-remove_data :
      (e : Node) (p : T.Page) (r : Node) → T.children (T.remove_data e p) r ≡ T.children p r
  pub data_of-prepend_to :
      (e q : Node) (p : T.Page) (x : Node) → T.data_of x (T.prepend_to e q p) ≡ T.data_of x p
  pub data_of-insert_after :
      (e a : Node) (p : T.Page) (x : Node) → T.data_of x (T.insert_after e a p) ≡ T.data_of x p
  pub data_of-set_data :
      (e v : Node) (p : T.Page) (x : Node)
      → T.data_of x (T.set_data e v p) ≡ (if x == e then some v else T.data_of x p)
  pub data_of-remove_data :
      (e : Node) (p : T.Page) (x : Node)
      → T.data_of x (T.remove_data e p) ≡ (if x == e then none else T.data_of x p)
