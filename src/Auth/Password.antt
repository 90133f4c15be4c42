-- ===== src/Auth/Password.antt =====
-- server/auth/policy.go: the check of a user's password, and the start of an attempt. The
-- conversion to int32 keeps the low 32 bits of a length; `subtle.ConstantTimeEq` is given.
use duckgres.Base.{
  ℕ, zero, suc, ◌+◌, ◌*◌, ◌/◌, ◌%◌, ◌^◌, ◌≤◌, ◌<◌, ◌≡◌, ◌↔◌, refl, sym, ap, subst, Bool, true,
  false, ◌&&◌, List, [], ◌∷◌, Option, none, some, Bytes, codes, length, ltb, ◌==◌, ==_iff,
  if◌then◌else◌, arith, All, ℕ_discrete,
}
use duckgres.Base.Dict.{lookup}
use duckgres.Auth.Limiter.{byte_keys}

-- The two bitwise operators on bytes, from the lowest of `n` bits on.
unfoldable pub bit_xor : ℕ → ℕ → ℕ → ℕ
bit_xor zero a b = 0
bit_xor (suc n) a b = (a % 2 + b % 2) % 2 + 2 * bit_xor n (a / 2) (b / 2)

unfoldable pub bit_or : ℕ → ℕ → ℕ → ℕ
bit_or zero a b = 0
bit_or (suc n) a b = (if a % 2 + b % 2 == 0 then 0 else 1) + 2 * bit_or n (a / 2) (b / 2)

-- `s[i]`, or 0 behind the end.
abbrev pub byte_at : ℕ → Bytes → ℕ
byte_at i [] = 0
byte_at zero (c ∷ s) = c
byte_at (suc i) (c ∷ s) = byte_at i s

-- The loop of `constantTimeStringEqual` from `i` on, with `n` rounds left.
unfoldable pub diff_loop : ℕ → ℕ → ℕ → Bytes → Bytes → ℕ
unfolding bit_xor bit_or
diff_loop zero i diff a b = diff
diff_loop (suc n) i diff a b =
    diff_loop n (suc i) (bit_or 8 diff (bit_xor 8 (byte_at i a) (byte_at i b))) a b

-- `constantTimeStringEqual`
unfoldable pub constant_time_string_equal : (ℕ → ℕ → ℕ) → Bytes → Bytes → Bool
unfolding diff_loop
constant_time_string_equal constant_time_eq a b =
    let max_len = if ltb (length a) (length b) then length b else length a in
    let diff = diff_loop max_len 0 0 a b in
    constant_time_eq (length a % 2 ^ 32) (length b % 2 ^ 32) == 1 && diff == 0

abbrev pub invalid_password_sentinel : Bytes
invalid_password_sentinel = codes "__duckgres_invalid_password_sentinel__"

-- `ValidateUserPassword`
unfoldable pub validate_user_password : (ℕ → ℕ → ℕ) → List (Bytes × Bytes) → Bytes → Bytes → Bool
unfolding constant_time_string_equal
validate_user_password constant_time_eq users username password = elim (lookup username users) [
  | none ↦ false && constant_time_string_equal constant_time_eq password invalid_password_sentinel
  | some expected ↦ true && constant_time_string_equal constant_time_eq password expected
]

bit_xor-zero : (n a b : ℕ) → a < 2 ^ n → b < 2 ^ n → bit_xor n a b ≡ 0 → a ≡ b
unfolding bit_xor
bit_xor-zero zero a b h k e = omega arith
bit_xor-zero (suc n) a b h k e =
    let ih = bit_xor-zero n (a / 2) (b / 2) (omega arith) (omega arith) (omega arith) in omega arith

bit_xor-same : (n a : ℕ) → bit_xor n a a ≡ 0
unfolding bit_xor
bit_xor-same zero a = refl
bit_xor-same (suc n) a = omega (arith, bit_xor-same n (a / 2))

bit_or-zero : (n a b : ℕ) → a < 2 ^ n → b < 2 ^ n → bit_or n a b ≡ 0 → (a ≡ 0) × (b ≡ 0)
unfolding bit_or
bit_or-zero zero a b h k e = omega arith
bit_or-zero (suc n) a b h k e =
    let ih = bit_or-zero n (a / 2) (b / 2) (omega arith) (omega arith) (ground arith) in
    ground (arith, ih)

bit_or-zeros : (n : ℕ) → bit_or n 0 0 ≡ 0
unfolding bit_or
bit_or-zeros zero = refl
bit_or-zeros (suc n) = omega (arith, bit_or-zeros n)

bit_or-lt : (n a b : ℕ) → bit_or n a b < 2 ^ n
unfolding bit_or
bit_or-lt zero a b = omega arith
bit_or-lt (suc n) a b = let ih = bit_or-lt n (a / 2) (b / 2) in ground (arith, ih)

bit_xor-lt : (n a b : ℕ) → bit_xor n a b < 2 ^ n
unfolding bit_xor
bit_xor-lt zero a b = omega arith
bit_xor-lt (suc n) a b = let ih = bit_xor-lt n (a / 2) (b / 2) in omega arith

&&-both : (x y : Bool) → (x && y) ≡ true → (x ≡ true) × (y ≡ true)
&&-both true true e = (refl, refl)
&&-both true false e = cc
&&-both false y e = cc

-- A Go string: its bytes are below 256.
abbrev pub IsBytes : Bytes → Type 0
IsBytes = All (λ c. c < 256)

byte_at-lt : (i : ℕ) (s : Bytes) → IsBytes s → byte_at i s < 256
byte_at-lt i [] h = omega arith
byte_at-lt zero (c ∷ s) (h, t) = h
byte_at-lt (suc i) (c ∷ s) (h, t) = byte_at-lt i s t

diff_loop-zero :
    (n i diff : ℕ) (a b : Bytes)
    → diff < 256
    → IsBytes a
    → IsBytes b
    → diff_loop n i diff a b ≡ 0
    → (diff ≡ 0) × ((j : ℕ) → i ≤ j → j < i + n → byte_at j a ≡ byte_at j b)
unfolding diff_loop
diff_loop-zero zero i diff a b d h k e = (e, λ j l m. absurd (omega (arith, l, m)))
diff_loop-zero (suc n) i diff a b d h k e =
    let x = bit_xor 8 (byte_at i a) (byte_at i b) in
    let (z, rest) = diff_loop-zero n (suc i) (bit_or 8 diff x) a b (bit_or-lt 8 diff x) h k e in
    let (p, q) = bit_or-zero 8 diff x d (bit_xor-lt 8 (byte_at i a) (byte_at i b)) z in
    let here = bit_xor-zero 8 (byte_at i a) (byte_at i b) (byte_at-lt i a h) (byte_at-lt i b k) q in
    (
      p,
      λ j l m. elim (ℕ_discrete i j) [
        | yes same ↦ subst (λ j. byte_at j a ≡ byte_at j b) same here
        | no apart ↦ rest j (omega (arith, l, apart)) (omega (arith, m))
      ],
    )

diff_loop-same : (n i : ℕ) (a : Bytes) → diff_loop n i 0 a a ≡ 0
unfolding diff_loop
diff_loop-same zero i a = refl
diff_loop-same (suc n) i a =
    rw (bit_xor-same 8 (byte_at i a), bit_or-zeros 8) (diff_loop-same n (suc i) a)

same_bytes :
    (a b : Bytes)
    → length a ≡ length b
    → ((j : ℕ) → j < length a → byte_at j a ≡ byte_at j b)
    → a ≡ b
same_bytes [] [] e f = refl
same_bytes [] (y ∷ b) e f = absurd (omega (arith, e))
same_bytes (x ∷ a) [] e f = absurd (omega (arith, e))
same_bytes (x ∷ a) (y ∷ b) e f =
    let head = f 0 (omega arith) in
    let tail = same_bytes a b (omega (arith, e)) (λ j l. f (suc j) (omega (arith, l))) in cc

-- The comparison is equality, for strings shorter than 2 ^ 32 bytes.
pub constant_time_string_equal_lem :
    (constant_time_eq : ℕ → ℕ → ℕ) (a b : Bytes)
    → ((x y : ℕ) → (constant_time_eq x y ≡ 1) ↔ (x ≡ y))
    → IsBytes a
    → IsBytes b
    → length a < 2 ^ 32
    → length b < 2 ^ 32
    → (constant_time_string_equal constant_time_eq a b ≡ true) ↔ (a ≡ b)
unfolding constant_time_string_equal
constant_time_string_equal_lem eq a b spec ha hb la lb = (
  λ e.
      let (p, q) = &&-both _ _ e in
      let size : length a ≡ length b =
        omega (arith, (spec (length a % 2 ^ 32) (length b % 2 ^ 32)).0 ((==_iff _ 1).0 p)) in
      let bytes =
        diff_loop-zero (if ltb (length a) (length b) then length b else length a) 0 0 a b
          (omega arith) ha hb ((==_iff _ 0).0 q) in
      same_bytes a b size (λ j l. bytes.1 j (omega arith) (ground (arith, l, size))),
  λ e. subst (λ x. constant_time_string_equal eq a x ≡ true) e same,
)
  where
    same : constant_time_string_equal eq a a ≡ true
    same =
        rw
          (
            (spec (length a % 2 ^ 32) (length a % 2 ^ 32)).1 refl,
            diff_loop-same (if ltb (length a) (length a) then length a else length a) 0 a,
          )
          refl

-- A password is accepted exactly when it is the one on record for the user, where the password and
-- the one on record are byte strings shorter than 2 ^ 32 and the comparison of numbers is right.
pub validate_user_password_lem :
    (constant_time_eq : ℕ → ℕ → ℕ) (users : List (Bytes × Bytes)) (username password : Bytes)
    → ((x y : ℕ) → (constant_time_eq x y ≡ 1) ↔ (x ≡ y))
    → IsBytes password
    → length password < 2 ^ 32
    → ((expected : Bytes)
        → lookup username users ≡ some expected
        → IsBytes expected × (length expected < 2 ^ 32))
    → (validate_user_password constant_time_eq users username password ≡ true)
      ↔ (lookup username users ≡ some password)
unfolding validate_user_password
validate_user_password_lem eq users username password spec hp lp known =
    go (lookup username users) refl
  where
    go :
        (o : Option Bytes)
        → lookup username users ≡ o
        → ((elim o [
          | none ↦ false && constant_time_string_equal eq password invalid_password_sentinel
          | some expected ↦ true && constant_time_string_equal eq password expected
        ])
            ≡ true)
          ↔ (o ≡ some password)
    go none e = (λ q. cc, λ q. cc)
    go (some expected) e =
        let (h, l) = known expected e in
        let same = constant_time_string_equal_lem eq password expected spec hp h lp l in
        (λ q. ap some (sym (same.0 q)), λ q. same.1 cc)
