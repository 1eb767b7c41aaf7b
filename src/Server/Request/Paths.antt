-- ===== src/Server/Request/Paths.antt =====
-- The file and its type for the path of a request.
use so.Common.{
  ℕ_discrete, eq→==, ne→==, ◌≢◌, ◌⊎◌, inl, inr, ℕ, suc, ◌+◌, ◌≡◌, ◌≤◌, refl, ap, ◌∙◌, Bool, true,
  false, some, List, [], ◌∷◌, ◌++◌, length, leb, if◌then◌else◌, All, arith, le→leb,
}
use mathlib.Core.List.{append_assoc, head-eq_of_cons-eq, tail-eq_of_cons-eq}
use mathlib.Core.Path.{subst}
use so.Server.Types.{
  codes, bufsiz, aws_document_root, set_handler, Connection, FileType, static, dynamic, other_type,
}
use so.Server.System.{System}
use so.Server.Monad.{Server, returns, ◌>>=◌, call, found, load, store, modify, branch}
use so.Server.Request.{
  text_eq, contains, skip_delims, until_delim, type_of_token, determine_file_type, file_name,
  open_path, set_connection_path_and_file,
}

until_delim-word :
    (ds w : List ℕ) (d : ℕ) (tail : List ℕ)
    → All (λ c. contains c ds ≡ false) w
    → contains d ds ≡ true
    → until_delim ds (w ++ d ∷ tail) ≡ w
unfolding until_delim
until_delim-word ds [] d tail clear delim = rw (delim) refl
until_delim-word ds (c ∷ w) d tail (out, clear) delim =
    rw (out, until_delim-word ds w d tail clear delim) refl

-- The type for the name of a folder.
abbrev pub IsTypeOf : List ℕ → FileType → Type 0
IsTypeOf folder kind =
    ((folder ≡ codes "static") × (kind ≡ static))
    ⊎ ((folder ≡ codes "dynamic") × (kind ≡ dynamic))
    ⊎ ((folder ≢ codes "static") × (folder ≢ codes "dynamic") × (kind ≡ other_type))

-- Equal texts are equal lists.
text_eq-cases :
    (xs ys : List ℕ) → ((text_eq xs ys ≡ true) × (xs ≡ ys)) ⊎ ((text_eq xs ys ≡ false) × (xs ≢ ys))
unfolding text_eq
text_eq-cases [] [] = inl (refl, refl)
text_eq-cases [] (y ∷ ys) = inr (refl, λ e. cc (e))
text_eq-cases (x ∷ xs) [] = inr (refl, λ e. cc (e))
text_eq-cases (x ∷ xs) (y ∷ ys) = elim (ℕ_discrete x y) [
  | no ne ↦ inr (rw (ne→== x y ne) refl, λ e. ne (head-eq_of_cons-eq e))
  | yes same ↦ elim (text_eq-cases xs ys) [
    | inl (eq, e) ↦ inl (rw (eq→== x y same) eq, cc (same, e))
    | inr (differs, ne) ↦ inr (rw (eq→== x y same) differs, λ e. ne (tail-eq_of_cons-eq e))
  ]
]

pub type_of_token-IsTypeOf : (folder : List ℕ) → IsTypeOf folder (type_of_token folder)
unfolding type_of_token
type_of_token-IsTypeOf folder = elim (text_eq-cases folder (codes "static")) [
  | inl (same, e) ↦ inl (e, rw same refl)
  | inr (other, ne) ↦ elim (text_eq-cases folder (codes "dynamic")) [
    | inl (same, e) ↦ inr (inl (e, rw other (rw same refl)))
    | inr (other', ne') ↦ inr (inr (ne, ne', rw other (rw other' refl)))
  ]
]

-- The type is that of the first folder of the path.
determine_file_type-folder :
    (c : ℕ) (w tail behind more : List ℕ)
    → All (λ d. contains d (b'/' ∷ more) ≡ false) (c ∷ w)
    → determine_file_type (b'/' ∷ ((c ∷ w) ++ b'/' ∷ tail)) behind more ≡ type_of_token (c ∷ w)
unfolding determine_file_type skip_delims
determine_file_type-folder c w tail behind more (out, clear) =
    let ds = b'/' ∷ more in
    let split : ((c ∷ w) ++ b'/' ∷ tail) ++ behind ≡ (c ∷ w) ++ b'/' ∷ (tail ++ behind) =
      append_assoc (c ∷ w) (b'/' ∷ tail) behind in
    let slash : contains b'/' ds ≡ true = refl in
    ap (λ (xs : List ℕ). type_of_token (until_delim ds (skip_delims ds xs))) split
    ∙ ap
        (λ (b : Bool). type_of_token (
          until_delim ds (
            if b
            then skip_delims ds (w ++ b'/' ∷ (tail ++ behind))
            else (c ∷ w) ++ b'/' ∷ (tail ++ behind))))
        out
    ∙ ap type_of_token (until_delim-word ds (c ∷ w) b'/' (tail ++ behind) (out, clear) slash)

module _ {S : Type 0} (sys : System S) where
  opens :
      (c : ℕ) (w tail behind more : List ℕ) (p : ℕ) (conn : Connection) (s : Server S)
      → length (file_name (b'/' ∷ ((c ∷ w) ++ b'/' ∷ tail))) + 1 ≤ bufsiz
      → All (λ d. contains d (b'/' ∷ more) ≡ false) (c ∷ w)
      → s.handlers p ≡ some conn
      → set_connection_path_and_file sys (b'/' ∷ ((c ∷ w) ++ b'/' ∷ tail)) behind more p s
        ≡ returns tt (record s {
          handlers = set_handler s.handlers p (
              some (record conn {
                path = file_name (b'/' ∷ ((c ∷ w) ++ b'/' ∷ tail));
                file = (sys.open_file (file_name (b'/' ∷ ((c ∷ w) ++ b'/' ∷ tail))) s.sys).0;
                file_type = type_of_token (c ∷ w);
              }));
          sys = (sys.open_file (file_name (b'/' ∷ ((c ∷ w) ++ b'/' ∷ tail))) s.sys).1;
        })
  unfolding set_connection_path_and_file open_path ◌>>=◌ call load found modify store branch
  opens c w tail behind more p conn s fits clear live =
      let path : List ℕ = b'/' ∷ ((c ∷ w) ++ b'/' ∷ tail) in
      let test : leb (suc (length (file_name path))) bufsiz ≡ true =
        le→leb _ _ (omega (arith, fits)) in
      rw (test) (rw (determine_file_type-folder c w tail behind more clear) (rw live refl))

  -- For a path `/folder/...` whose file name fits in BUFSIZ bytes, with the handler live: the file
  -- `./folder/...` with the extension `dat` is opened, behind a dot unless the path has one, and the
  -- handler gets its name, the result, and the type of the folder: static, dynamic, or neither. No byte
  -- of the folder's name is taken for a delimiter.
  pub set_connection_path_and_file-opens :
      (c : ℕ) (w tail behind more : List ℕ) (p : ℕ) (conn : Connection) (s : Server S)
      (path name : List ℕ)
      → path ≡ b'/' ∷ ((c ∷ w) ++ b'/' ∷ tail)
      → name
        ≡ aws_document_root
          ++ (((c ∷ w) ++ b'/' ∷ tail)
              ++ (if contains b'.' path then codes "dat" else codes ".dat"))
      → length name + 1 ≤ bufsiz
      → All (λ d. contains d (b'/' ∷ more) ≡ false) (c ∷ w)
      → s.handlers p ≡ some conn
      → set_connection_path_and_file sys path behind more p s
        ≡ returns tt (record s {
          handlers = set_handler s.handlers p (
              some (record conn {
                path = name;
                file = (sys.open_file name s.sys).0;
                file_type = type_of_token (c ∷ w);
              }));
          sys = (sys.open_file name s.sys).1;
        })
  unfolding file_name
  set_connection_path_and_file-opens c w tail behind more p conn s path name is_path is_name fits
        clear live =
      let whole : List ℕ = b'/' ∷ ((c ∷ w) ++ b'/' ∷ tail) in
      let named : name ≡ file_name whole =
        is_name
        ∙ ap
            (λ (q : List ℕ).
              aws_document_root
              ++ (((c ∷ w) ++ b'/' ∷ tail)
                  ++ (if contains b'.' q then codes "dat" else codes ".dat")))
            is_path in
      let fits' : length (file_name whole) + 1 ≤ bufsiz =
        subst (λ (n : List ℕ). length n + 1 ≤ bufsiz) named fits in
      rw (is_path, named) (opens c w tail behind more p conn s fits' clear live)
