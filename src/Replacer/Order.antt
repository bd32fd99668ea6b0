-- ===== src/Replacer/Order.antt =====
-- The order that the linked list keeps is that of the last uses.
use simple_duck_dbms.Base.{
  ℕ, ◌<◌, ◌≡◌, refl, ap, arith, Bool, true, false, not, ◌&&◌, ◌||◌, List, [], ◌∷◌, ◌++◌, Option,
  none, some, ◌==◌, if◌then◌else◌,
}
use simple_duck_dbms.Replacer.{Node, BufferReplacer, erase}

unfoldable pub pages : List Node → List ℕ
pages [] = []
pages (node ∷ nodes) = node.page_id ∷ pages nodes

-- What the list is to be: the pages, the least recently used one first.
unfoldable pub without : ℕ → List ℕ → List ℕ
without p [] = []
without p (q ∷ qs) = if q == p then without p qs else q ∷ without p qs

unfoldable pub node_of : List Node → ℕ → Option ℕ
node_of [] p = none
node_of (x ∷ xs) p = if x.page_id == p then some x.id else node_of xs p

unfoldable pub has_id : List Node → ℕ → Bool
has_id [] n = false
has_id (x ∷ xs) n = x.id == n || has_id xs n

unfoldable pub has_page : List Node → ℕ → Bool
has_page [] p = false
has_page (x ∷ xs) p = x.page_id == p || has_page xs p

unfoldable pub unique : List Node → Bool
unique [] = true
unique (x ∷ xs) = not (has_id xs x.id) && (not (has_page xs x.page_id) && unique xs)

-- The map holds the iterator of each page of the list, and of no other; no page and no node stands
-- in the list twice.
pub record IsReplacer (r : BufferReplacer) : Type 0 where
  pub found : (p : ℕ) → r.positions p ≡ node_of r.mru_pages p
  pub once : unique r.mru_pages ≡ true
  pub used : (n : ℕ) → has_id r.mru_pages n ≡ true → n < r.next_id

node_of-has_id : (xs : List Node) (p n : ℕ) → node_of xs p ≡ some n → has_id xs n ≡ true
unfolding node_of has_id
node_of-has_id [] p n e = ground arith
node_of-has_id (x ∷ xs) p n e = ground (arith, node_of-has_id xs p n)

pub node_of_absent : (xs : List Node) (p : ℕ) → has_page xs p ≡ false → node_of xs p ≡ none
unfolding node_of has_page
node_of_absent [] p h = refl
node_of_absent (x ∷ xs) p h = ground (arith, node_of_absent xs p)

pub absent_node_of : (xs : List Node) (p : ℕ) → node_of xs p ≡ none → has_page xs p ≡ false
unfolding node_of has_page
absent_node_of [] p h = refl
absent_node_of (x ∷ xs) p h = ground (arith, absent_node_of xs p)

pub without_absent :
    (xs : List Node) (p : ℕ) → has_page xs p ≡ false → without p (pages xs) ≡ pages xs
unfolding without pages has_page
without_absent [] p h = refl
without_absent (x ∷ xs) p h = ground (arith, without_absent xs p)

pub pages-erase :
    (xs : List Node) (p n : ℕ)
    → unique xs ≡ true
    → node_of xs p ≡ some n
    → pages (erase n xs) ≡ without p (pages xs)
unfolding without pages erase unique node_of
pages-erase [] p n u e = refl
pages-erase (x ∷ xs) p n u e =
    ground (arith, pages-erase xs p n, without_absent xs p, node_of-has_id xs p n)

pub node_of-erase :
    (xs : List Node) (p n q : ℕ)
    → unique xs ≡ true
    → node_of xs p ≡ some n
    → node_of (erase n xs) q ≡ (if q == p then none else node_of xs q)
unfolding erase unique node_of
node_of-erase [] p n q u e = ground arith
node_of-erase (x ∷ xs) p n q u e =
    ground (arith, node_of-erase xs p n q, node_of_absent xs p, node_of-has_id xs p n)

pub has_id-erase : (xs : List Node) (n m : ℕ) → has_id xs m ≡ false → has_id (erase n xs) m ≡ false
unfolding erase has_id
has_id-erase [] n m h = refl
has_id-erase (x ∷ xs) n m h = ground (arith, has_id-erase xs n m)

has_page-erase :
    (xs : List Node) (n p : ℕ) → has_page xs p ≡ false → has_page (erase n xs) p ≡ false
unfolding erase has_page
has_page-erase [] n p h = refl
has_page-erase (x ∷ xs) n p h = ground (arith, has_page-erase xs n p)

pub unique-erase : (xs : List Node) (n : ℕ) → unique xs ≡ true → unique (erase n xs) ≡ true
unfolding erase unique
unique-erase [] n u = refl
unique-erase (x ∷ xs) n u =
    ground (arith, unique-erase xs n, has_id-erase xs n x.id, has_page-erase xs n x.page_id)

pub pages-append : (xs ys : List Node) → pages (xs ++ ys) ≡ pages xs ++ pages ys
unfolding pages
pages-append [] ys = refl
pages-append (x ∷ xs) ys = ap (◌∷◌ x.page_id) (pages-append xs ys)

pub node_of-append :
    (xs : List Node) (x : Node) (q : ℕ)
    → has_page xs x.page_id ≡ false
    → node_of (xs ++ (x ∷ [])) q ≡ (if q == x.page_id then some x.id else node_of xs q)
unfolding node_of has_page
node_of-append [] x q h = ground arith
node_of-append (y ∷ ys) x q h = ground (arith, node_of-append ys x q)

pub has_id-append :
    (xs : List Node) (x : Node) (n : ℕ) → has_id (xs ++ (x ∷ [])) n ≡ (has_id xs n || x.id == n)
unfolding has_id
has_id-append [] x n = ground arith
has_id-append (y ∷ ys) x n = ground (arith, has_id-append ys x n)

has_page-append :
    (xs : List Node) (x : Node) (p : ℕ)
    → has_page (xs ++ (x ∷ [])) p ≡ (has_page xs p || x.page_id == p)
unfolding has_page
has_page-append [] x p = ground arith
has_page-append (y ∷ ys) x p = ground (arith, has_page-append ys x p)

pub unique-append :
    (xs : List Node) (x : Node)
    → unique xs ≡ true
    → has_id xs x.id ≡ false
    → has_page xs x.page_id ≡ false
    → unique (xs ++ (x ∷ [])) ≡ true
unfolding unique has_id has_page
unique-append [] x u h k = refl
unique-append (y ∷ ys) x u h k =
    ground (arith, unique-append ys x, has_id-append ys x y.id, has_page-append ys x y.page_id)
