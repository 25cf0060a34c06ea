-- ===== src/HostLocal/Store/Disk/Files.antt =====
-- The directory of the store: what writing and removing a file does to the others.
use containerz_plugin.Common.{
  ◌≡◌, ◌≢◌, true, false, List, [], ◌∷◌, arith, Text, text_eq, text_eq_iff, trim_space, refl, sym,
  Bool-cases, inl, inr,
}
use containerz_plugin.HostLocal.Store.Disk.{
  File, present, write_file, remove_file, find_by_key, release_by_key,
}

pub text_eq_refl : (t : Text) → text_eq t t ≡ true
text_eq_refl t = (text_eq_iff t t).1 refl

pub text_eq_apart : (a b : Text) → a ≢ b → text_eq a b ≡ false
text_eq_apart a b h = elim (Bool-cases (text_eq a b)) [
  | inl e ↦ absurd (h ((text_eq_iff a b).0 e))
  | inr e ↦ e
]

pub present-write_file : (n c : Text) (fs : List File) → present n (write_file n c fs) ≡ true
unfolding present write_file
present-write_file n c [] = ground (arith, text_eq_refl n)
present-write_file n c (f ∷ fs) = ground (arith, text_eq_refl n, present-write_file n c fs)

pub present-write_file_other :
    (n m c : Text) (fs : List File) → m ≢ n → present m (write_file n c fs) ≡ present m fs
unfolding present write_file
present-write_file_other n m c [] h = ground (arith, text_eq_apart n m (λ e. h (sym e)))
present-write_file_other n m c (f ∷ fs) h = elim (Bool-cases (text_eq f.name n)) [
  | inl e ↦
      let same : f.name ≡ n = (text_eq_iff f.name n).0 e in
      ground (arith, text_eq_apart n m (λ e. h (sym e)), same)
  | inr e ↦ ground (arith, present-write_file_other n m c fs h)
]

-- A file that was not there is created and removed without a trace.
pub remove_file-write_file :
    (n c : Text) (fs : List File) → present n fs ≡ false → remove_file n (write_file n c fs) ≡ fs
unfolding present write_file remove_file
remove_file-write_file n c [] h = ground (arith, text_eq_refl n)
remove_file-write_file n c (f ∷ fs) h = ground (arith, remove_file-write_file n c fs)

pub find_by_key-release_by_key :
    (k : Text) (fs : List File) → find_by_key k (release_by_key k fs) ≡ false
unfolding find_by_key release_by_key
find_by_key-release_by_key k [] = refl
find_by_key-release_by_key k (f ∷ fs) = ground (arith, find_by_key-release_by_key k fs)

pub find_by_key-release_by_key_other :
    (k l : Text) (fs : List File) → k ≢ l → find_by_key l (release_by_key k fs) ≡ find_by_key l fs
unfolding find_by_key release_by_key
find_by_key-release_by_key_other k l [] h = refl
find_by_key-release_by_key_other k l (f ∷ fs) h =
    elim (Bool-cases (text_eq (trim_space f.content) k)) [
      | inl e ↦
          let same : trim_space f.content ≡ k = (text_eq_iff _ _).0 e in
          ground (arith, text_eq_apart k l h, find_by_key-release_by_key_other k l fs h, same)
      | inr e ↦ ground (arith, find_by_key-release_by_key_other k l fs h)
    ]
