-- ===== src/TempFiles/Files.antt =====
-- The source file that a thread opens and writes.
use socket_project.Prelude.{
  ℕ, zero, suc, ◌<◌, ◌≡◌, refl, ap, ◌∙◌, Option, none, some, List, [], ◌∷◌, ◌++◌, append-nil,
  length, length-append, drop, drop-all, arith,
}
use socket_project.Wire.{Bytes}
use socket_project.TempFiles.{
  Disk, inode_at, set_inode, fopen_inode, fopen_disk, fwrite, source_bytes, host_of,
}

-- A source file's inode is one of the disk's.
unfoldable pub IsDisk : Disk → Type 0
IsDisk d = (i : ℕ) → d.source ≡ some i → i < length d.inodes

pub length-set_inode : (ds : List Bytes) (i : ℕ) (c : Bytes) → length (set_inode ds i c) ≡ length ds
unfolding set_inode
length-set_inode [] i c = refl
length-set_inode (b ∷ ds) zero c = refl
length-set_inode (b ∷ ds) (suc i) c = omega (arith, length-set_inode ds i c)

inode_at-set_inode :
    (ds : List Bytes) (i : ℕ) (c : Bytes) → i < length ds → inode_at (set_inode ds i c) i ≡ c
unfolding set_inode inode_at
inode_at-set_inode [] i c h = ground arith
inode_at-set_inode (b ∷ ds) zero c h = refl
inode_at-set_inode (b ∷ ds) (suc i) c h = inode_at-set_inode ds i c (omega arith)

inode_at-end : (ds : List Bytes) (c : Bytes) → inode_at (ds ++ (c ∷ [])) (length ds) ≡ c
unfolding inode_at
inode_at-end [] c = refl
inode_at-end (b ∷ ds) c = inode_at-end ds c

overwrite_empty :
    (contents : Bytes) (ds : List Bytes) (i : ℕ)
    → i < length ds
    → inode_at ds i ≡ []
    → inode_at (set_inode ds i (contents ++ drop (length contents) (inode_at ds i))) i ≡ contents
overwrite_empty contents ds i h e =
    inode_at-set_inode ds i _ h
    ∙ ap (λ b. contents ++ drop (length contents) b) e
    ∙ ap (◌++◌ contents) (drop-all (length contents) [] (omega arith))
    ∙ append-nil contents

-- A source file that a thread opens and writes with no turn of another between holds its bytes alone.
source_bytes-fwrite :
    (contents : Bytes) (d : Disk)
    → IsDisk d
    → source_bytes (fwrite contents (fopen_inode d) (fopen_disk d)) ≡ some contents
unfolding source_bytes fwrite fopen_inode fopen_disk IsDisk
source_bytes-fwrite contents d h = go d.source refl
  where
    go :
        (o : Option ℕ)
        → d.source ≡ o
        → source_bytes (
            fwrite contents
              (fopen_inode (record d { source = o }))
              (fopen_disk (record d { source = o })))
          ≡ some contents
    go none e = ap some (
        overwrite_empty contents (d.inodes ++ ([] ∷ [])) (length d.inodes)
          (omega (arith, length-append d.inodes ([] ∷ []))) (inode_at-end d.inodes []))
    go (some i) e = ap some (
        overwrite_empty contents (set_inode d.inodes i []) i
          (omega (arith, h i e, length-set_inode d.inodes i []))
          (inode_at-set_inode d.inodes i [] (h i e)))

written_same :
    (contents : Bytes) (i : ℕ) (d : Disk)
    → ((fwrite contents i (fopen_disk d)).load ≡ d.load)
      × ((fwrite contents i (fopen_disk d)).binary ≡ d.binary)
unfolding fopen_disk fwrite
written_same contents i d = go d.source
  where
    go :
        (o : Option ℕ)
        → (let d' = fopen_disk (record d { source = o }) in
            (d'.load ≡ d.load) × (d'.binary ≡ d.binary))
    go none = (refl, refl)
    go (some i) = (refl, refl)

pub host_of-fwrite :
    (contents : Bytes) (d : Disk)
    → IsDisk d
    → host_of (fwrite contents (fopen_inode d) (fopen_disk d))
      ≡ record (host_of d) { source = some contents }
unfolding host_of
host_of-fwrite contents d h =
    let same = written_same contents (fopen_inode d) d in
    rw (source_bytes-fwrite contents d h, same.0, same.1) refl
