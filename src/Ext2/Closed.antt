-- ===== src/Ext2/Closed.antt =====
-- What a call of `load_file` or `ext2_create` leaves behind.
use ub2lb.Prelude.{
  ℕ, ◌≡◌, ◌≢◌, ◌⊎◌, refl, ap, subst, true, false, Bool-cases, inl, inr, Bytes, arith,
}
use ub2lb.Prelude.Int.{ℤ, pos, negsuc}
use ub2lb.Ext2.{Driver, Loaded, load_file, open_file, read_file, same_count}

ℤ-cases : (z : ℤ) → ((n : ℕ) × (z ≡ pos n)) ⊎ ((n : ℕ) × (z ≡ negsuc n))
ℤ-cases (pos n) = inl (n, refl)
ℤ-cases (negsuc n) = inr (n, refl)

same_count-pos : (z : ℤ) (n : ℕ) → same_count z n ≡ true → z ≡ pos n
same_count-pos (pos m) n h = ap pos (ground arith)
same_count-pos (negsuc m) n h = ground arith

same_count-other : (z : ℤ) (n : ℕ) → same_count z n ≡ false → z ≢ pos n
same_count-other z n h e =
    let same : same_count (pos n) n ≡ true = ground arith in
    let other : same_count (pos n) n ≡ false = subst (λ x. same_count x n ≡ false) e h in cc

module _ {S : Type 0} (driver : Driver S) where
  open driver use {ext2fs_mount, ext2fs_open, ext2fs_read, ext2fs_close}

  -- What `l` is, by what the driver says in turn from the state `s0` on. On each path the driver is closed in the
  -- state that the last call has left.
  pub data Ended (part_length : ℕ) (filename buffer : Bytes) (s0 : S) (l : Loaded S) : Type 0 where
    not_mounted :
        {s1 : S}
        → ext2fs_mount part_length s0 ≡ (false, s1)
        → l ≡ record { result = negsuc 3; buffer = buffer; state = ext2fs_close s1 }
        → Ended part_length filename buffer s0 l
    not_found :
        {k : ℕ} {s1 s2 : S}
        → ext2fs_mount part_length s0 ≡ (true, s1)
        → ext2fs_open filename s1 ≡ (negsuc k, s2)
        → l ≡ record { result = negsuc 4; buffer = buffer; state = ext2fs_close s2 }
        → Ended part_length filename buffer s0 l
    not_read :
        {n : ℕ} {z : ℤ} {b : Bytes} {s1 s2 s3 : S}
        → ext2fs_mount part_length s0 ≡ (true, s1)
        → ext2fs_open filename s1 ≡ (pos n, s2)
        → ext2fs_read buffer n s2 ≡ (z, (b, s3))
        → z ≢ pos n
        → l ≡ record { result = negsuc 5; buffer = b; state = ext2fs_close s3 }
        → Ended part_length filename buffer s0 l
    read :
        {n : ℕ} {b : Bytes} {s1 s2 s3 : S}
        → ext2fs_mount part_length s0 ≡ (true, s1)
        → ext2fs_open filename s1 ≡ (pos n, s2)
        → ext2fs_read buffer n s2 ≡ (pos n, (b, s3))
        → l ≡ record { result = pos n; buffer = b; state = ext2fs_close s3 }
        → Ended part_length filename buffer s0 l

  read_file-Ended :
      (part_length : ℕ) (filename buffer : Bytes) (s0 s1 s2 : S) (n : ℕ)
      → ext2fs_mount part_length s0 ≡ (true, s1)
      → ext2fs_open filename s1 ≡ (pos n, s2)
      → Ended part_length filename buffer s0 (read_file driver n buffer s2)
  unfolding read_file
  read_file-Ended part_length filename buffer s0 s1 s2 n m e =
      let got = ext2fs_read buffer n s2 in
      elim (Bool-cases (same_count got.0 n)) [
        | inl h ↦ rw h (read m e (ap (λ z. (z, got.1)) (same_count-pos got.0 n h)) refl)
        | inr h ↦ rw h (not_read m e refl (same_count-other got.0 n h) refl)
      ]

  open_file-Ended :
      (part_length : ℕ) (filename buffer : Bytes) (s0 s1 : S)
      → ext2fs_mount part_length s0 ≡ (true, s1)
      → Ended part_length filename buffer s0 (open_file driver filename buffer s1)
  unfolding open_file
  open_file-Ended part_length filename buffer s0 s1 m =
      let opened = ext2fs_open filename s1 in
      elim (ℤ-cases opened.0) [
        | inl (n, h) ↦
            rw (h, open_file)
              (read_file-Ended part_length filename buffer s0 s1 opened.1 n m
                (ap (λ z. (z, opened.1)) h))
        | inr (n, h) ↦ rw (h, open_file) (not_found m (ap (λ z. (z, opened.1)) h) refl)
      ]

  -- On each path load_file of ext2.c closes the driver in the state that its last call has left:
  -- -4 is returned where the partition is not mounted, -5 where it is but the file is not opened,
  -- both with the buffer as it was, -6 where another number of bytes is read than the opened file
  -- has, and otherwise that number, with the buffer that the driver has filled.
  pub load_file-Ended :
      (part_length : ℕ) (filename buffer : Bytes) (s : S)
      → Ended part_length filename buffer s (load_file driver part_length filename buffer s)
  unfolding load_file open_file read_file
  load_file-Ended part_length filename buffer s =
      let mounted = ext2fs_mount part_length s in
      elim (Bool-cases mounted.0) [
        | inl h ↦
            rw h
              (open_file-Ended part_length filename buffer s mounted.1 (ap (λ b. (b, mounted.1)) h))
        | inr h ↦ rw h (not_mounted (ap (λ b. (b, mounted.1)) h) refl)
      ]
