-- ===== src/Handlers/Fields.antt =====
-- Maps of request headers (net/http) and of call metadata (google.golang.org/grpc), one value a
-- key, with `Set` under a canonical spelling of the key.
use tickr.Prelude.{
  String, List, [], ◌∷◌, ◌++◌, false, Option, none, some, ◌≡◌, refl, ◌∙◌, str_eq, str_eq_iff,
  if◌then◌else◌, arith,
}

abbrev pub Fields : Type 0
Fields = List (String × String)

unfoldable pub put : String → String → Fields → Fields
put k v [] = (k, v) ∷ []
put k v ((j, u) ∷ fs) = let rest = put k v fs in if str_eq j k then (k, v) ∷ fs else (j, u) ∷ rest

unfoldable pub get : String → Fields → Option String
get k [] = none
get k ((j, u) ∷ fs) = if str_eq j k then some u else get k fs

-- `Set` for each entry; `canonical` is the spelling of keys.
unfoldable pub set_all : (String → String) → Fields → Fields → Fields
set_all canonical [] fs = fs
set_all canonical ((k, v) ∷ kvs) fs = set_all canonical kvs (put (canonical k) v fs)

pub get-put : (k v : String) (fs : Fields) → get k (put k v fs) ≡ some v
unfolding get put
get-put k v [] = ground (arith, str_eq_iff k k)
get-put k v ((j, u) ∷ fs) = ground (arith, str_eq_iff k k, get-put k v fs)

pub get-put_other :
    (j k v : String) (fs : Fields) → str_eq k j ≡ false → get j (put k v fs) ≡ get j fs
unfolding get put
get-put_other j k v [] h = rw h refl
get-put_other j k v ((i, u) ∷ fs) h =
    ground (arith, str_eq_iff i k, str_eq_iff i j, str_eq_iff k j, get-put_other j k v fs h)

-- No entry has a key that is spelt like `k`.
abbrev pub Lacks : (String → String) → String → Fields → Type 0
Lacks canonical k [] = Unit
Lacks canonical k ((j, u) ∷ fs) = (str_eq (canonical j) k ≡ false) × Lacks canonical k fs

pub get-set_all_other :
    (canonical : String → String) (k : String) (kvs fs : Fields)
    → Lacks canonical k kvs
    → get k (set_all canonical kvs fs) ≡ get k fs
unfolding set_all
get-set_all_other canonical k [] fs h = refl
get-set_all_other canonical k ((j, v) ∷ kvs) fs h =
    get-set_all_other canonical k kvs (put (canonical j) v fs) h.1
    ∙ get-put_other k (canonical j) v fs h.0

-- The last entry with a spelling of a key is the one that stays.
pub get-set_all_entry :
    (canonical : String → String) (before : Fields) (k v : String) (after fs : Fields)
    → Lacks canonical (canonical k) after
    → get (canonical k) (set_all canonical (before ++ (k, v) ∷ after) fs) ≡ some v
unfolding set_all
get-set_all_entry canonical [] k v after fs h =
    get-set_all_other canonical (canonical k) after (put (canonical k) v fs) h
    ∙ get-put (canonical k) v fs
get-set_all_entry canonical ((j, u) ∷ before) k v after fs h =
    get-set_all_entry canonical before k v after (put (canonical j) u fs) h
