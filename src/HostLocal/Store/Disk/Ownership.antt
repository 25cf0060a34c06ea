-- ===== src/HostLocal/Store/Disk/Ownership.antt =====
-- Who owns a file of the store: `FindByID`, `GetByID` and `ReleaseByID` after `Reserve`, and what a
-- release leaves.
use containerz_plugin.Common.{
  append_assoc, ◌≡◌, ◌≢◌, Bool, true, false, ◌&&◌, List, [], ◌∷◌, ◌++◌, All, arith, refl, sym, ap,
  subst, ◌∙◌, Text, text_eq, text_eq_iff, Result, ok, trim_space, Bool-cases, inl, inr,
}
use containerz_plugin.Net.{Ip}
use containerz_plugin.Net.Regular.{IsRegular}
use containerz_plugin.HostLocal.Store.{StoreError}
use containerz_plugin.HostLocal.Store.Disk.{
  IpText, IsIpText, Disk, Fault, no_fault, open_fails, write_fails, close_fails, last_file_fails,
  File, present, write_file, find_by_key, find_by_id, release_by_key, release_by_id, reserve_under,
  reserve, last_ip_file, key, line_break, holds, next_fault,
}
use containerz_plugin.HostLocal.Store.Disk.Files.{
  present-write_file, present-write_file_other, find_by_key-release_by_key,
  find_by_key-release_by_key_other,
}

append_cons_apart : {A : Type 0} (xs : List A) (y : A) (ys : List A) → xs ++ y ∷ ys ≢ xs
append_cons_apart [] y ys e = cc
append_cons_apart (x ∷ xs) y ys e = append_cons_apart xs y ys cc

pub key_apart : (id ifname : Text) → key id ifname ≢ trim_space id
key_apart id ifname e =
    append_cons_apart (trim_space id) 13 (10 ∷ ifname)
      (sym (append_assoc (trim_space id) line_break ifname) ∙ e)

-- After a release no file is found for the owner, unless there were files of both formats; then the
-- old ones are found.
pub find_by_id-release_by_id :
    (d : Disk) (id ifname : Text)
    → find_by_id (release_by_id d id ifname) id ifname
      ≡ find_by_key (key id ifname) d.files && find_by_key (trim_space id) d.files
unfolding find_by_id release_by_id
find_by_id-release_by_id d id ifname =
    let k = key id ifname in
    let old = trim_space id in
    ground (
      arith,
      find_by_key-release_by_key k d.files,
      find_by_key-release_by_key old d.files,
      find_by_key-release_by_key_other k old d.files (key_apart id ifname),
      find_by_key-release_by_key_other old k d.files (λ e. key_apart id ifname (sym e)),
    )

-- A release keeps the files of every other owner: for a key that is neither form of the owner's, it
-- changes nothing.
pub find_by_key-release_by_id :
    (d : Disk) (id ifname other : Text)
    → other ≢ key id ifname
    → other ≢ trim_space id
    → find_by_key other (release_by_id d id ifname).files ≡ find_by_key other d.files
unfolding release_by_id
find_by_key-release_by_id d id ifname other h1 h2 = ground (
  arith,
  find_by_key-release_by_key_other (key id ifname) other d.files (λ e. h1 (sym e)),
  find_by_key-release_by_key_other (trim_space id) other d.files (λ e. h2 (sym e)),
)

-- Every file of the name holds the key.
abbrev AllOf : Text → Text → List File → Type 0
AllOf n k = All (λ (f : File). text_eq f.name n ≡ true → text_eq (trim_space f.content) k ≡ true)

AllOf-absent : (n k : Text) (fs : List File) → present n fs ≡ false → AllOf n k fs
unfolding present
AllOf-absent n k [] h = tt
AllOf-absent n k (f ∷ fs) h = ((λ e. ground arith), AllOf-absent n k fs (ground arith))

AllOf-write :
    (n k c : Text) (fs : List File)
    → AllOf n k fs
    → text_eq (trim_space c) k ≡ true
    → AllOf n k (write_file n c fs)
unfolding write_file
AllOf-write n k c [] h e = ((λ _. e), tt)
AllOf-write n k c (f ∷ fs) h e = elim (Bool-cases (text_eq f.name n)) [
  | inl s ↦ rw s ((λ _. e), h.1)
  | inr s ↦ rw s (h.0, AllOf-write n k c fs h.1 e)
]

AllOf-write_other :
    (n m k c : Text) (fs : List File) → AllOf n k fs → m ≢ n → AllOf n k (write_file m c fs)
unfolding write_file
AllOf-write_other n m k c [] h e = ((λ s. absurd (e ((text_eq_iff m n).0 s))), tt)
AllOf-write_other n m k c (f ∷ fs) h e = elim (Bool-cases (text_eq f.name m)) [
  | inl s ↦ rw s ((λ t. absurd (e ((text_eq_iff m n).0 t))), h.1)
  | inr s ↦ rw s (h.0, AllOf-write_other n m k c fs h.1 e)
]

present-release_by_key :
    (n k : Text) (fs : List File) → AllOf n k fs → present n (release_by_key k fs) ≡ false
unfolding present release_by_key
present-release_by_key n k [] h = refl
present-release_by_key n k (f ∷ fs) h = elim (Bool-cases (text_eq f.name n)) [
  | inl e ↦ ground (arith, h.0 e, present-release_by_key n k fs h.1)
  | inr e ↦ ground (arith, present-release_by_key n k fs h.1)
]

-- A file of the name holds the key.
found_by_key :
    (n k : Text) (fs : List File) → AllOf n k fs → present n fs ≡ true → find_by_key k fs ≡ true
unfolding present find_by_key
found_by_key n k [] h p = cc
found_by_key n k (f ∷ fs) h p = elim (Bool-cases (text_eq f.name n)) [
  | inl e ↦ ground (arith, h.0 e)
  | inr e ↦ ground (arith, found_by_key n k fs h.1 (ground arith))
]

-- What `Reserve` leaves when it answers true.
written :
    (f : Fault) (there : Bool) (d d' : Disk) (name content last : Text)
    → reserve_under f there d name content last ≡ (d', ok true)
    → (there ≡ false) × (write_file last name (write_file name content d.files) ≡ d'.files)
unfolding reserve_under
written open_fails there d d' name content last h = cc
written no_fault true d d' name content last h = cc
written write_fails true d d' name content last h = cc
written close_fails true d d' name content last h = cc
written last_file_fails true d d' name content last h = cc
written write_fails false d d' name content last h = cc
written close_fails false d d' name content last h = cc
written last_file_fails false d d' name content last h = cc
written no_fault false d d' name content last h =
    (refl, ap (λ (p : Disk × Result StoreError Bool). p.0.files) h)

module _ (io : IpText) (laws : IsIpText io) where
  reserved_files :
      (d d' : Disk) (id ifname : Text) (a : Ip) (range_id : Text)
      → IsRegular a
      → trim_space (key id ifname) ≡ key id ifname
      → reserve io d id ifname a range_id ≡ (d', ok true)
      → AllOf (io.print a) (key id ifname) d'.files × (holds io d' a ≡ true)
  unfolding reserve holds
  reserved_files d d' id ifname a range_id ra t h =
      let n = io.print a in
      let k = key id ifname in
      let (free, w) =
        written (next_fault d.faults) (present n d.files) d d' n k (last_ip_file range_id) h in
      let apart : last_ip_file range_id ≢ n = λ e. laws.not_last a range_id ra (sym e) in
      let same : text_eq (trim_space k) k ≡ true = (text_eq_iff _ _).1 t in
      subst (λ fs. AllOf n k fs × (present n fs ≡ true)) w
        (
          AllOf-write_other n (last_ip_file range_id) k n (write_file n k d.files)
              (AllOf-write n k k d.files (AllOf-absent n k d.files free) same) apart,
          present-write_file_other (last_ip_file range_id) n n (write_file n k d.files)
                (λ e. apart (sym e))
              ∙ present-write_file n k d.files,
        )

  -- When `Reserve` has answered true for a standard address, and the owner's key has no space at its
  -- ends, then `FindByID` finds the owner, and `ReleaseByID` for it frees the address.
  pub reserve-release_by_id :
      (d d' : Disk) (id ifname : Text) (a : Ip) (range_id : Text)
      → IsRegular a
      → trim_space (key id ifname) ≡ key id ifname
      → reserve io d id ifname a range_id ≡ (d', ok true)
      → (holds io d' a ≡ true)
        × (find_by_id d' id ifname ≡ true)
        × (holds io (release_by_id d' id ifname) a ≡ false)
  unfolding holds find_by_id release_by_id
  reserve-release_by_id d d' id ifname a range_id ra t h =
      let k = key id ifname in
      let (every, there) = reserved_files d d' id ifname a range_id ra t h in
      let found = found_by_key (io.print a) k d'.files every there in
      (
        there,
        ground (arith, found),
        ground (arith, found, present-release_by_key (io.print a) k d'.files every),
      )
