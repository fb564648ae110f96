-- ===== src/Lru.antt =====
-- The `LruCache` of the lru crate as a parameter: its operations, and what its documentation says
-- of the order in which `iter` lists the entries, the most recently used first.
mod Entries
pub mod Keys
unfoldable pub use Entries.*
use vpfs_iroh.Base.{Eq, ◌≡◌, refl, Option, List, []}

pub record LruCache (K V : Type 0) : Type 1 where
  pub Cache : Type 0
  pub unbounded : Cache
  pub get : K → Cache → Option V × Cache
  pub put : K → V → Cache → Cache
  pub pop_lru : Cache → Option (K × V) × Cache
  pub demote : K → Cache → Cache
  pub iter : Cache → List (K × V)

module _ {K V : Type 0} ⦃e : Eq K⦄ where
  pub record IsLru (lru : LruCache K V) : Type 0 where
    pub iter-unbounded : lru.iter lru.unbounded ≡ []
    pub get-lookup : (k : K) (c : lru.Cache) → (lru.get k c).0 ≡ lookup k (lru.iter c)
    -- A hit makes its entry the most recently used one.
    pub iter-get : (k : K) (c : lru.Cache) → lru.iter (lru.get k c).1 ≡ promote k (lru.iter c)
    pub iter-put :
        (k : K) (v : V) (c : lru.Cache) → lru.iter (lru.put k v c) ≡ touch k v (lru.iter c)
    pub pop_lru-last : (c : lru.Cache) → (lru.pop_lru c).0 ≡ last? (lru.iter c)
    pub iter-pop_lru : (c : lru.Cache) → lru.iter (lru.pop_lru c).1 ≡ init (lru.iter c)
    -- `demote` makes the entry of a key the least recently used one.
    pub iter-demote : (k : K) (c : lru.Cache) → lru.iter (lru.demote k c) ≡ sink k (lru.iter c)

  -- A cache that is the list of its entries.
  abbrev pub list_lru : LruCache K V
  list_lru = record {
    Cache = List (K × V);
    unbounded = [];
    get = λ k c. (lookup k c, promote k c);
    put = touch;
    pop_lru = λ c. (last? c, init c);
    demote = sink;
    iter = λ c. c;
  }

  pub list_lru-IsLru : IsLru list_lru
  list_lru-IsLru = record {
    iter-unbounded = refl;
    get-lookup = λ k c. refl;
    iter-get = λ k c. refl;
    iter-put = λ k v c. refl;
    pop_lru-last = λ c. refl;
    iter-pop_lru = λ c. refl;
    iter-demote = λ k c. refl;
  }
