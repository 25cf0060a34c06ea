-- ===== src/HostLocal/Store.antt =====
-- plugins/ipam/host-local/backend/store.go: what the allocator asks of a store of reservations. A
-- call returns the new state of the store. Locking is not modelled: a call of the allocator runs
-- inside the lock, as one step.
pub mod Disk
use containerz_plugin.Common.{ℕ, ◌≡◌, ◌≢◌, ◌⊎◌, Bool, true, false, List, Result, ok, err, Text}
use containerz_plugin.Net.{Ip}
use containerz_plugin.Net.Values.{IsBytes}
use containerz_plugin.Net.Regular.{IsRegular}

pub data StoreError : Type 0 where
  not_exist open_failed write_failed close_failed last_file_failed : StoreError

-- `backend.Store`
pub record Store (S : Type 0) : Type 0 where
  pub reserve : S → Text → Text → Ip → Text → S × Result StoreError Bool
  pub last_reserved_ip : S → Text → Result StoreError Ip
  pub release_by_id : S → Text → Text → S
  pub get_by_id : S → Text → Text → List Ip

-- What one call of `Reserve` did, by its result: it took a free address and no other, or it found
-- the address taken and changed nothing, or it failed and freed nothing.
pub data Reserved {S : Type 0} (taken : S → Ip → Bool) (s s' : S) (a : Ip)
    : Result StoreError Bool → Type 0 where
  fresh :
      taken s a ≡ false
      → taken s' a ≡ true
      → ((b : Ip) → IsRegular b → b ≢ a → taken s' b ≡ taken s b)
      → Reserved taken s s' a (ok true)
  refused : taken s a ≡ true → s' ≡ s → Reserved taken s s' a (ok false)
  failed :
      (e : StoreError)
      → ((b : Ip) → IsRegular b → taken s b ≡ true → taken s' b ≡ true)
      → Reserved taken s s' a (err e)

-- The contract of a store, over the addresses that it holds.
pub record IsStore {S : Type 0} (st : Store S) (taken : S → Ip → Bool) : Type 0 where
  pub reserves :
      (s : S) (id ifname : Text) (a : Ip) (range_id : Text)
      → IsRegular a
      → Reserved taken s
          (st.reserve s id ifname a range_id).0
          a
          (st.reserve s id ifname a range_id).1
  pub last_bytes :
      (s : S) (range_id : Text) (a : Ip) → st.last_reserved_ip s range_id ≡ ok a → IsBytes a
