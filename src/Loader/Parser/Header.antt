-- ===== src/Loader/Parser/Header.antt =====
-- The tests of `so_parse_exec` in exec_parser.c on the header.
use so.Common.{
  ℕ, ◌≡◌, ◌≤◌, refl, ◌⊎◌, ◌↔◌, Bool, true, false, not, ◌&&◌, none, List, [], ◌∷◌, All, ◌==◌, arith,
  ltb→le, le→ltb, ltb,
}
use so.Loader.Types.{Ehdr, ElfLayout}
use so.Loader.Parser.{ParseError, first_error, has_magic, header_rules, header_error}
use so.Loader.Parser.Spec.{IsExec32}

first_error-none :
    (rules : List (Bool × ParseError))
    → (first_error rules ≡ none) ↔ All (λ (r : Bool × ParseError). r.0 ≡ false) rules
unfolding first_error
first_error-none [] = ((λ _. tt), (λ _. refl))
first_error-none ((true, m) ∷ rules) = ((λ h. absurd (grind arith)), (λ h. absurd (grind arith)))
first_error-none ((false, m) ∷ rules) =
    ((λ h. (refl, (first_error-none rules).0 h)), (λ h. (first_error-none rules).1 h.1))

eq_test : (a b : ℕ) → (not (a == b) ≡ false) ↔ (a ≡ b)
eq_test a b = ((λ h. ground arith), (λ p. ground arith))

magic_test :
    (e : Ehdr)
    → (not (has_magic e) ≡ false)
      ↔ ((e.ei_mag0 ≡ 127) × (e.ei_mag1 ≡ 69) × (e.ei_mag2 ≡ 76) × (e.ei_mag3 ≡ 70))
unfolding has_magic
magic_test e = ((λ h. ground arith), (λ p. ground arith))

abi_test : (a : ℕ) → ((not (a == 3) && not (a == 0)) ≡ false) ↔ ((a ≡ 3) ⊎ (a ≡ 0))
abi_test a = ((λ h. ground arith), (λ p. ground arith))

room_test : (a b : ℕ) → (ltb a b ≡ false) ↔ (b ≤ a)
room_test a b = (ltb→le a b, le→ltb a b)

rules-IsExec32 :
    (l : ElfLayout) (ret : ℕ) (e : Ehdr)
    → All (λ (r : Bool × ParseError). r.0 ≡ false) (header_rules l ret e) ↔ IsExec32 l ret e
unfolding header_rules
rules-IsExec32 l ret e = (
  (λ a. record {
    room = (room_test _ _).0 a.0;
    mag0 = ((magic_test e).0 a.1.0).0;
    mag1 = ((magic_test e).0 a.1.0).1;
    mag2 = ((magic_test e).0 a.1.0).2;
    mag3 = ((magic_test e).0 a.1.0).3;
    class32 = (eq_test _ _).0 a.1.1.0;
    lsb = (eq_test _ _).0 a.1.1.1.0;
    ident = (eq_test _ _).0 a.1.1.1.1.0;
    abi = (abi_test _).0 a.1.1.1.1.1.0;
    exec = (eq_test _ _).0 a.1.1.1.1.1.1.0;
    i386 = (eq_test _ _).0 a.1.1.1.1.1.1.1.0;
    version = (eq_test _ _).0 a.1.1.1.1.1.1.1.1.0;
    all_read = (room_test _ _).0 a.1.1.1.1.1.1.1.1.1.0;
  }),
  (λ x. (
    (room_test _ _).1 x.room,
    (
      (magic_test e).1 (x.mag0, x.mag1, x.mag2, x.mag3),
      (
        (eq_test _ _).1 x.class32,
        (
          (eq_test _ _).1 x.lsb,
          (
            (eq_test _ _).1 x.ident,
            (
              (abi_test _).1 x.abi,
              (
                (eq_test _ _).1 x.exec,
                (
                  (eq_test _ _).1 x.i386,
                  ((eq_test _ _).1 x.version, ((room_test _ _).1 x.all_read, tt)),
                ),
              ),
            ),
          ),
        ),
      ),
    ),
  )),
)

-- The header passes every test exactly if it is that of a 32-bit executable for the i386, and `ret`
-- bytes hold it and its program headers.
pub header_error-IsExec32 :
    (l : ElfLayout) (ret : ℕ) (e : Ehdr) → (header_error l ret e ≡ none) ↔ IsExec32 l ret e
unfolding header_error
header_error-IsExec32 l ret e =
    let fails = first_error-none (header_rules l ret e) in
    let valid = rules-IsExec32 l ret e in ((λ h. valid.0 (fails.0 h)), (λ v. fails.1 (valid.1 v)))
