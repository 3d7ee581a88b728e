-- ===== src/Persistence/Cold/Names.antt =====
-- The names of archives: `blocks-{:010}-{:010}` is written by writer.rs, and
-- `blocks-(\d{10})-(\d{10})\.rbi` is what reader.rs accepts.
use rock_node.Base.{
  ℕ, zero, suc, ◌+◌, ◌*◌, ◌/◌, ◌%◌, ◌^◌, ◌≤◌, ◌<◌, ◌≡◌, refl, inl, inr, ◌&&◌, List, [], ◌∷◌, ◌++◌,
  Option, none, some, arith, ltb, ◌==◌, if◌then◌else◌, length, length-append, Bool-cases,
}

-- The `k` low decimal digits, the highest first.
unfoldable pub digits : ℕ → ℕ → List ℕ
digits zero n = []
digits (suc k) n = digits k (n / 10) ++ (n % 10 ∷ [])

-- The number of digits beyond the ten lowest; a `u64` has at most ten more.
unfoldable pub digits_beyond : ℕ → ℕ → ℕ
digits_beyond zero n = 0
digits_beyond (suc fuel) n =
    let rest = digits_beyond fuel (n / 10) in if n == 0 then 0 else suc rest

-- `format!("{:010}", n)`
unfoldable pub padded : ℕ → List ℕ
unfolding digits digits_beyond
padded n = digits (10 + digits_beyond 10 (n / 10 ^ 10)) n

-- The two groups of digits in an archive's name; its two files differ in the extension.
pub record ArchiveName : Type 0 where
  pub first : List ℕ
  pub last : List ℕ

unfoldable pub archive_name : ℕ → ℕ → ArchiveName
archive_name first last = record { first = padded first; last = padded last }

-- `str::parse` of digits.
unfoldable pub parse_digits : ℕ → List ℕ → ℕ
parse_digits acc [] = acc
parse_digits acc (d ∷ ds) = parse_digits (acc * 10 + d) ds

-- A group `\d{10}` between the fixed parts of the pattern.
unfoldable pub capture : List ℕ → Option ℕ
unfolding parse_digits
capture ds = if length ds == 10 then some (parse_digits 0 ds) else none

-- `ColdReader::parse_block_range`
unfoldable pub parse_block_range : ArchiveName → Option (ℕ × ℕ)
unfolding capture
parse_block_range name = elim (capture name.first) [
  | none ↦ none
  | some start ↦ elim (capture name.last) [ none ↦ none | some end ↦ some (start, end) ]
]

length-digits : (k n : ℕ) → length (digits k n) ≡ k
unfolding digits
length-digits zero n = refl
length-digits (suc k) n =
    omega (arith, length-append {0} (digits k (n / 10)) (n % 10 ∷ []), length-digits k (n / 10))

parse_ten : (n : ℕ) → n < 10 ^ 10 → parse_digits 0 (digits 10 n) ≡ n
unfolding parse_digits digits
parse_ten n h = omega arith

padded_ten : (n : ℕ) → n < 10 ^ 10 → padded n ≡ digits 10 n
unfolding padded digits_beyond
padded_ten n h = let e : n / 10 ^ 10 ≡ 0 = omega arith in rw e

-- A number of at most ten digits is read back.
pub capture-padded : (n : ℕ) → n < 10 ^ 10 → capture (padded n) ≡ some n
unfolding capture
capture-padded n h = rw (padded_ten n h, length-digits 10 n, parse_ten n h)

more_digits : (n : ℕ) → 10 ^ 10 ≤ n → 0 < digits_beyond 10 (n / 10 ^ 10)
unfolding digits_beyond
more_digits n h = ground arith

-- A number of more digits is not.
pub capture-long : (n : ℕ) → 10 ^ 10 ≤ n → capture (padded n) ≡ none
unfolding capture padded
capture-long n h =
    rw (length-digits (10 + digits_beyond 10 (n / 10 ^ 10)) n) (ground (arith, more_digits n h))

-- The reader finds the range in the name that the writer gives, exactly where both numbers have at
-- most ten digits; an archive with a longer number in its name is never loaded.
pub parse_block_range-archive_name :
    (first last : ℕ)
    → parse_block_range (archive_name first last)
      ≡ (if ltb first (10 ^ 10) && ltb last (10 ^ 10) then some (first, last) else none)
unfolding parse_block_range archive_name
parse_block_range-archive_name first last = elim (Bool-cases (ltb first (10 ^ 10))) [
  | inr big ↦ rw (capture-long first (ground arith), parse_block_range, big) refl
  | inl small ↦ elim (Bool-cases (ltb last (10 ^ 10))) [
    | inr big ↦
        rw
          (
            capture-padded first (ground arith),
            capture-long last (ground arith),
            parse_block_range,
            small,
            big,
          )
          refl
    | inl both ↦
        rw
          (
            capture-padded first (ground arith),
            capture-padded last (ground arith),
            parse_block_range,
            small,
            both,
          )
          refl
  ]
]
