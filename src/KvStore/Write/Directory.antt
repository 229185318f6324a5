-- ===== src/KvStore/Write/Directory.antt =====
-- Looking a name up in a directory where files were removed or put.
use preon_star.Base.{
  Bool, Bytes, List, [], ap, arith, bytes_eq, bytes_eq_refl, bytes_eq_sound, false, if◌then◌else◌,
  none, refl, some, true, ◌∷◌, ◌≡◌,
}
use preon_star.KvStore.Write.{file_named, put_file, remaining}
use preon_star.KvStore.Files.{DirEntry}

pub file_named-remaining :
    (gone : Bytes → Bool) (name : Bytes) (fs : List DirEntry)
    → file_named name (remaining gone fs) ≡ (if gone name then none else file_named name fs)
unfolding file_named remaining
file_named-remaining gone name [] = ground arith
file_named-remaining gone name (f ∷ fs) =
    let same : bytes_eq f.name name ≡ true → gone f.name ≡ gone name =
      λ e. ap gone (bytes_eq_sound f.name name e) in
    ground (arith, same, file_named-remaining gone name fs)

pub file_named-put_file :
    (name bytes : Bytes) (fs : List DirEntry)
    → file_named name (put_file name bytes fs) ≡ some bytes
unfolding file_named put_file
file_named-put_file name bytes fs = rw (bytes_eq_refl name) refl

pub file_named-put_other :
    (new name bytes : Bytes) (fs : List DirEntry)
    → bytes_eq new name ≡ false
    → file_named name (put_file new bytes fs)
      ≡ file_named name (remaining (λ (n : Bytes). bytes_eq n new) fs)
unfolding file_named put_file
file_named-put_other new name bytes fs h = rw h refl
