-- ===== src/Migrations/Names.antt =====
-- The order in which `loadMigrations` of apps/api/internal/database/migrations.go leaves the files.
use stream_analysis_tools.Base.{
  ◌≡◌, ◌≢◌, refl, ap, subst, ◌∙◌, ◌⊎◌, inl, inr, true, false, List, [], ◌∷◌, All, arith, Bytes,
  codes, ltb, Bool-cases,
}
use stream_analysis_tools.Errors.{Result, ok, err}
use stream_analysis_tools.Go.Strings.{has_suffix}
use stream_analysis_tools.Migrations.{
  Migration, Entry, bytes_lt, by_name, is_up, with_file, read_files, sorted, load_migrations,
}
use stream_analysis_tools.Sql.Table.{order_by}
use stream_analysis_tools.Sql.Table.Order.{Strict, Apart, order_by-Strict, All-order_by}

pub bytes_lt_asym : (s t : Bytes) → bytes_lt s t ≡ true → bytes_lt t s ≡ false
unfolding bytes_lt
bytes_lt_asym s [] h = cc
bytes_lt_asym [] (b ∷ t) h = refl
bytes_lt_asym (a ∷ s) (b ∷ t) h = let tail = bytes_lt_asym s t in ground arith

pub bytes_lt_trans :
    (s t u : Bytes) → bytes_lt s t ≡ true → bytes_lt t u ≡ true → bytes_lt s u ≡ true
unfolding bytes_lt
bytes_lt_trans s [] u h k = absurd (cc)
bytes_lt_trans s (b ∷ t) [] h k = absurd (cc)
bytes_lt_trans [] (b ∷ t) (c ∷ u) h k = refl
bytes_lt_trans (a ∷ s) (b ∷ t) (c ∷ u) h k = let tail = bytes_lt_trans s t u in ground arith

-- Of two different names one stands before the other.
pub bytes_lt_total : (s t : Bytes) → s ≢ t → (bytes_lt s t ≡ true) ⊎ (bytes_lt t s ≡ true)
unfolding bytes_lt
bytes_lt_total [] [] n = absurd (n refl)
bytes_lt_total [] (b ∷ t) n = inl refl
bytes_lt_total (a ∷ s) [] n = inr refl
bytes_lt_total (a ∷ s) (b ∷ t) n = elim (Bool-cases (ltb a b)) [
  | inl l ↦ inl (ground arith)
  | inr nl ↦ elim (Bool-cases (ltb b a)) [
    | inl g ↦ inr (ground arith)
    | inr ng ↦
        let level : a ≡ b = ground arith in
        let tail = bytes_lt_total s t (λ e. n (ap (◌∷◌ a) e ∙ ap (λ c. c ∷ t) level)) in
        ground arith
  ]
]

-- Entries of which no two have the same name, as those of a directory.
abbrev pub Unlike : List Entry → Type 0
Unlike [] = Unit
Unlike (e ∷ es) = All (λ f. e.name ≢ f.name) es × Unlike es

abbrev pub Up : Migration → Type 0
Up m = has_suffix m.name (codes ".up.sql") ≡ true

-- What holds of the migrations, if there are any.
abbrev Read : (List Migration → Type 0) → Result (List Migration) → Type 0
Read P (ok ms) = P ms
Read P (err e) = Unit

module _ (P : Migration → Type 0) where
  -- The migration of an entry satisfies `P`, if it has one.
  abbrev Yields : Entry → Type 0
  Yields e = is_up e ≡ true → (sql : Bytes) → P (record { name = e.name; sql = sql })

  with_file-All :
      (name : Bytes) (c : Result Bytes) (r : Result (List Migration))
      → ((sql : Bytes) → P (record { name = name; sql = sql }))
      → Read (All P) r
      → Read (All P) (with_file name c r)
  with_file-All name (err e) r p h = tt
  with_file-All name (ok sql) (err e) p h = tt
  with_file-All name (ok sql) (ok ms) p h = (p sql, h)

  read_files-All : (es : List Entry) → All Yields es → Read (All P) (read_files es)
  unfolding read_files
  read_files-All [] h = tt
  read_files-All (e ∷ es) h = elim (Bool-cases (is_up e)) [
    | inl u ↦ rw u (with_file-All e.name e.contents (read_files es) (h.0 u) (read_files-All es h.1))
    | inr d ↦ rw d (read_files-All es h.1)
  ]

with_file-Apart :
    (name : Bytes) (c : Result Bytes) (r : Result (List Migration))
    → Read (All λ m. name ≢ m.name) r
    → Read (Apart by_name) r
    → Read (Apart by_name) (with_file name c r)
with_file-Apart name (err e) r p h = tt
with_file-Apart name (ok sql) (err e) p h = tt
with_file-Apart name (ok sql) (ok ms) p h = (sides ms p, h)
  where
    sides :
        (ms : List Migration)
        → All (λ m. name ≢ m.name) ms
        → All
            (λ m.
              (by_name (record { name = name; sql = sql }) m ≡ true)
              ⊎ (by_name m (record { name = name; sql = sql }) ≡ true))
            ms
    sides [] p = tt
    sides (m ∷ ms) p = (bytes_lt_total name m.name p.0, sides ms p.1)

read_files-Apart : (es : List Entry) → Unlike es → Read (Apart by_name) (read_files es)
unfolding read_files
read_files-Apart [] h = tt
read_files-Apart (e ∷ es) h = elim (Bool-cases (is_up e)) [
  | inl u ↦ rw u (
      with_file-Apart e.name e.contents (read_files es)
        (read_files-All (λ m. e.name ≢ m.name) es (yield es h.0)) (read_files-Apart es h.1))
  | inr d ↦ rw d (read_files-Apart es h.1)
]
  where
    yield :
        (fs : List Entry) → All (λ f. e.name ≢ f.name) fs → All (Yields (λ m. e.name ≢ m.name)) fs
    yield [] p = tt
    yield (f ∷ fs) p = ((λ _ sql. p.0), yield fs p.1)

all-Up : (es : List Entry) → All (Yields Up) es
all-Up [] = tt
all-Up (e ∷ es) = ((λ u sql. ground arith), all-Up es)

arranged :
    (r : Result (List Migration)) (ms : List Migration)
    → Read (Apart by_name) r
    → Read (All Up) r
    → sorted r ≡ ok ms
    → Strict by_name ms × All Up ms
arranged (err e) ms a u l = absurd (cc)
arranged (ok ns) ms a u l =
    let same : order_by by_name ns ≡ ms = ground arith in
    subst (λ xs. Strict by_name xs × All Up xs) same
      (
        order_by-Strict by_name (λ a b. bytes_lt_asym a.name b.name)
            (λ a b c. bytes_lt_trans a.name b.name c.name) ns a,
        All-order_by Up by_name ns u,
      )

-- From a directory in which no two entries have the same name, `loadMigrations` reads migrations
-- in strictly ascending order of their names, byte by byte, and only from files that end in
-- `.up.sql`.
pub load_migrations-Strict :
    (es : List Entry) (ms : List Migration)
    → Unlike es
    → load_migrations (ok es) ≡ ok ms
    → Strict by_name ms × All Up ms
unfolding load_migrations
load_migrations-Strict es ms distinct l =
    arranged (read_files es) ms (read_files-Apart es distinct) (read_files-All Up es (all-Up es)) l
