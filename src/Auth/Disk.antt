-- ===== src/Auth/Disk.antt =====
-- packages/auth/src/credential-store.ts: a disk, and texts that hold the fields of an object.
use opfs_webauthn.Auth.Store.{
  Access, Field, Opfs, Parsed, fails, found, missing, number, object, other, string,
}
use opfs_webauthn.Auth.Store.Atomic.{OpfsLaws}
use opfs_webauthn.Map.{Map}
use opfs_webauthn.Prelude.{
  Bool, List, Option, Text, [], arith, drop, drop-append, inl, inr, length, nat_eq, none, not, refl,
  some, suc, take, take-append, text_eq, true, zero, ℕ, ◌++◌, ◌∷◌, ◌≡◌, ◌⊎◌,
}

put_text : Text → List ℕ → List ℕ
put_text s rest = length s ∷ (s ++ rest)

get_text : List ℕ → Text × List ℕ
get_text [] = ([], [])
get_text (n ∷ s) = (take n s, drop n s)

get-put_text : (s : Text) (rest : List ℕ) → get_text (put_text s rest) ≡ (s, rest)
unfolding get_text put_text
get-put_text s rest = ground (arith, take-append (length s) s rest, drop-append (length s) s rest)

put_field : Field ℕ → List ℕ → List ℕ
unfolding put_text
put_field (string s) rest = 0 ∷ put_text s rest
put_field (number n) rest = 1 ∷ n ∷ rest
put_field other rest = 2 ∷ rest

get_field : List ℕ → Field ℕ × List ℕ
unfolding get_text
get_field [] = (other, [])
get_field (zero ∷ s) = let (x, rest) = get_text s in (string x, rest)
get_field (suc zero ∷ []) = (other, [])
get_field (suc zero ∷ n ∷ rest) = (number n, rest)
get_field (suc (suc k) ∷ rest) = (other, rest)

get-put_field : (f : Field ℕ) (rest : List ℕ) → get_field (put_field f rest) ≡ (f, rest)
unfolding get_field put_field
get-put_field (string s) rest = ground (arith, get-put_text s rest)
get-put_field (number n) rest = refl
get-put_field other rest = refl

put_fields : Map Text (Field ℕ) → List ℕ
unfolding put_text put_field
put_fields [] = []
put_fields ((k, f) ∷ m) = put_text k (put_field f (put_fields m))

get_fields : ℕ → List ℕ → Map Text (Field ℕ)
unfolding get_text get_field
get_fields zero s = []
get_fields (suc n) s =
    let (k, s') = get_text s in let (f, rest) = get_field s' in (k, f) ∷ get_fields n rest

get-put_fields : (m : Map Text (Field ℕ)) → get_fields (length m) (put_fields m) ≡ m
unfolding get_fields put_fields
get-put_fields [] = refl
get-put_fields ((k, f) ∷ m) = ground (
  arith,
  get-put_text k (put_field f (put_fields m)),
  get-put_field f (put_fields m),
  get-put_fields m,
)

pub stringify_fields : Map Text (Field ℕ) → Text
unfolding put_fields
stringify_fields m = length m ∷ put_fields m

pub parse_fields : Text → Option (Parsed ℕ)
unfolding get_fields
parse_fields [] = none
parse_fields (n ∷ s) = some (object (get_fields n s))

pub parse-stringify_fields :
    (m : Map Text (Field ℕ)) → parse_fields (stringify_fields m) ≡ some (object m)
unfolding parse_fields stringify_fields
parse-stringify_fields m = rw (get-put_fields m)

-- `full` is a disk that takes no more.
pub record File : Type 0 where
  pub kept : Option Text
  pub swap : Text
  pub full : Bool

abbrev pub kind_of : Option Text → Access
kind_of none = missing
kind_of (some s) = found

abbrev pub created : Option Text → Option Text
created none = some []
created (some s) = some s

pub parse_fields_nil : parse_fields [] ≡ none
unfolding parse_fields
parse_fields_nil = refl

pub find_law : (o : Option Text) → kind_of o ≡ missing → o ≡ none
find_law o e = ground arith

pub remove_law : (o : Option Text) → kind_of o ≡ fails → none ≡ o
remove_law o e = ground arith

pub create_law : (o : Option Text) → (created o ≡ o) ⊎ ((o ≡ none) × (created o ≡ some []))
create_law none = inr (refl, refl)
create_law (some s) = inl refl

abbrev pub file_store : Opfs
file_store = record {
  Number = ℕ;
  Disk = File;
  parse = parse_fields;
  stringify = stringify_fields;
  has_root = λ d. true;
  find = λ d. kind_of d.kept;
  read = λ d. d.kept;
  create = λ d. (true, record d { kept = created d.kept });
  create_writable = λ d. (true, record d { swap = [] });
  write = λ s d. (not d.full, record d { swap = s });
  abort = λ d. (true, record d { swap = [] });
  close = λ d. (true, record d { kept = some d.swap; swap = [] });
  remove = λ d. (kind_of d.kept, record d { kept = none });
}

abbrev pub file_store_laws : OpfsLaws file_store
file_store_laws = record {
  contents = λ d. d.kept;
  parse-stringify = parse-stringify_fields;
  parse_nil = parse_fields_nil;
  find_missing = λ d e. find_law d.kept e;
  read_contents = λ d raw f r. r;
  create_contents = λ d. create_law d.kept;
  create_writable_contents = λ d. refl;
  write_contents = λ raw d. refl;
  abort_contents = λ d. refl;
  close_commits = λ raw d w c. refl;
  close_fails = λ d e. cc;
  remove_found = λ d e. refl;
  remove_missing = λ d e. refl;
  remove_fails = λ d e. remove_law d.kept e;
}
