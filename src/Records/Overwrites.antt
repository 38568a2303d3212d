-- ===== src/Records/Overwrites.antt =====
-- Proof rules for code that writes over bytes of a file and moves about in it: `Runs` says what a
-- piece of code yields, from which bytes and position to which, by how many calls.
use isam_db_c_language.Base.{
  ℕ, suc, ◌+◌, ◌-◌, ◌^◌, ◌<◌, ◌≡◌, ap, sym, ◌∙◌, arith, List, ◌++◌, some, ok, undefined, length,
  ltb, true, false, Bool, if◌then◌else◌,
}
use isam_db_c_language.Io.{
  Io, ◌>>=◌, ◌>>◌, pure, fail, lift, read_be, write_be, write, seek, seek_end, tell,
}
use isam_db_c_language.Io.Bytes.{be, length-be, overwrite_end}
use isam_db_c_language.Io.Wire.{bind-ok}
use isam_db_c_language.IndexFile.Indexes.{move_in_file_bytes}
use isam_db_c_language.Records.Places.{at, starts, read_be-here}
use isam_db_c_language.Records.Rewrite.{overwrite-here}
use isam_db_c_language.Records.Blocks.{move_back, read_int}

-- With any number `b` of calls more than it takes.
abbrev pub Runs : {A : Type 0} → Io A → A → List ℕ → ℕ → List ℕ → ℕ → ℕ → Type 0
Runs m x bytes p bytes' q c = (b : ℕ) → m (at bytes p (c + b)) ≡ ok (some x, at bytes' q b)

pub Runs-pure : {A : Type 0} (x : A) (bytes : List ℕ) (p : ℕ) → Runs (pure x) x bytes p bytes p 0
Runs-pure x bytes p b = ap (λ (n : ℕ). ok (some x, at bytes p n)) (omega arith)

pub Runs-bind :
    {A B : Type 0} (m : Io A) (k : A → Io B) (x : A) (y : B) (s t u : List ℕ) (p q r c d : ℕ)
    → Runs m x s p t q c
    → Runs (k x) y t q u r d
    → Runs (m >>= k) y s p u r (c + d)
Runs-bind m k x y s t u p q r c d first rest b =
    ap (λ (n : ℕ). (m >>= k) (at s p n)) (omega arith)
    ∙ bind-ok m k (at s p (c + (d + b))) (at t q (d + b)) x (first (d + b))
    ∙ rest b

pub Runs-to :
    {A : Type 0} (m : Io A) (x : A) (s t t' : List ℕ) (p q q' c : ℕ)
    → Runs m x s p t q c
    → t ≡ t'
    → q ≡ q'
    → Runs m x s p t' q' c
Runs-to m x s t t' p q q' c h e g b = h b ∙ λ i. ok (some x, at (e i) (g i) b)

pub Runs-move :
    (n : ℕ) (bytes : List ℕ) (p : ℕ) → Runs (move_in_file_bytes n) tt bytes p bytes (p + n) 2
unfolding move_in_file_bytes tell seek
Runs-move n bytes p b =
    let calls : 2 + b ≡ suc (suc b) = omega arith in
    ap (λ (k : ℕ). move_in_file_bytes n (at bytes p k)) calls

pub Runs-back : (n : ℕ) (bytes : List ℕ) (p : ℕ) → Runs (move_back n) tt bytes (p + n) bytes p 2
unfolding move_back tell seek
Runs-back n bytes p b =
    let calls : 2 + b ≡ suc (suc b) = omega arith in
    let enough : ltb (p + n) n ≡ false = ground arith in
    let back : p + n - n ≡ p = omega arith in
    ap (λ (k : ℕ). move_back n (at bytes (p + n) k)) calls
    ∙ ap (λ (c : Bool). (if c then fail else seek (p + n - n)) (at bytes (p + n) (suc b))) enough
    ∙ ap (λ (q : ℕ). ok (some tt, at bytes q b)) back

pub Runs-read_int :
    (n : ℕ) (bytes a s : List ℕ) (p : ℕ)
    → n < 2 ^ 31
    → bytes ≡ a ++ (be 4 n ++ s)
    → p ≡ length a
    → Runs read_int n bytes p bytes (p + 4) 1
unfolding read_int
Runs-read_int n bytes a s p small is here b =
    let calls : 1 + b ≡ suc b = omega arith in
    let fits : ltb n (2 ^ 31) ≡ true = ground arith in
    ap (λ (k : ℕ). read_int (at bytes p k)) calls
    ∙ bind-ok (read_be 4) (λ x. lift (if ltb x (2 ^ 31) then ok x else undefined))
        (at bytes p (suc b)) (at bytes (p + 4) b) n
        (read_be-here bytes s p b 4 n (omega arith) (starts bytes a _ p is here))
    ∙ ap (λ (c : Bool). lift (if c then ok n else undefined) (at bytes (p + 4) b)) fits

pub Runs-write_be :
    (k n : ℕ) (bytes a old tail : List ℕ) (p : ℕ)
    → bytes ≡ a ++ (old ++ tail)
    → p ≡ length a
    → length old ≡ k
    → Runs (write_be k n) tt bytes p (a ++ (be k n ++ tail)) (p + k) 1
unfolding write_be write
Runs-write_be k n bytes a old tail p is here same b =
    let calls : 1 + b ≡ suc b = omega arith in
    ap (λ (c : ℕ). write_be k n (at bytes p c)) calls ∙ λ i. ok (
      some tt,
      at (overwrite-here bytes a old tail (be k n) p is here (same ∙ sym (length-be k n)) i)
          (p + length-be k n i) b,
    )

pub Runs-tell : (bytes : List ℕ) (p : ℕ) → Runs tell p bytes p bytes p 1
unfolding tell
Runs-tell bytes p b =
    let calls : 1 + b ≡ suc b = omega arith in ap (λ (k : ℕ). tell (at bytes p k)) calls

pub Runs-seek : (q : ℕ) (bytes : List ℕ) (p : ℕ) → Runs (seek q) tt bytes p bytes q 1
unfolding seek
Runs-seek q bytes p b =
    let calls : 1 + b ≡ suc b = omega arith in ap (λ (k : ℕ). seek q (at bytes p k)) calls

pub Runs-seek_end :
    (bytes : List ℕ) (p : ℕ) → Runs seek_end (length bytes) bytes p bytes (length bytes) 1
unfolding seek_end
Runs-seek_end bytes p b =
    let calls : 1 + b ≡ suc b = omega arith in ap (λ (k : ℕ). seek_end (at bytes p k)) calls

pub Runs-read_be :
    (k n : ℕ) (bytes a s : List ℕ) (p : ℕ)
    → n < 256 ^ k
    → bytes ≡ a ++ (be k n ++ s)
    → p ≡ length a
    → Runs (read_be k) n bytes p bytes (p + k) 1
Runs-read_be k n bytes a s p small is here b =
    let calls : 1 + b ≡ suc b = omega arith in
    ap (λ (c : ℕ). read_be k (at bytes p c)) calls
    ∙ read_be-here bytes s p b k n small (starts bytes a _ p is here)

-- A number at the end of the file.
pub Runs-append_be :
    (k n : ℕ) (bytes : List ℕ) (p : ℕ)
    → p ≡ length bytes
    → Runs (write_be k n) tt bytes p (bytes ++ be k n) (p + k) 1
unfolding write_be write
Runs-append_be k n bytes p end b =
    let calls : 1 + b ≡ suc b = omega arith in
    ap (λ (c : ℕ). write_be k n (at bytes p c)) calls ∙ λ i.
    ok (some tt, at (overwrite_end bytes (be k n) p end i) (p + length-be k n i) b)

-- A step that yields nothing.
pub Runs-then :
    {B : Type 0} (m : Io (Unit {0})) (k : Io B) (y : B) (s t u : List ℕ) (p q r c d : ℕ)
    → Runs m tt s p t q c
    → Runs k y t q u r d
    → Runs (m >> k) y s p u r (c + d)
Runs-then m k y s t u p q r c d first rest = Runs-bind m (λ _. k) tt y s t u p q r c d first rest
