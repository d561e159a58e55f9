-- ===== src/CudaPagedState/Published.antt =====
-- examples/cuda_paged_state.rs: `publish` fills the copy of its page table that the device does not
-- read, and makes it the active one only after the transfer.
use seqcache.Prelude.{ℕ, ◌≡◌, ◌≢◌, true, List, take, length, pos, int_eq}
use seqcache.Error.{ok, err, panic}
use seqcache.CudaPagedState.Driver.{Cuda}
use seqcache.CudaPagedState.Table.{device_pointer}
use seqcache.CudaPagedState.Pool.{CudaStorage, CudaResult}

-- The documented effect of the driver's calls on the page tables, of which no kernel writes any:
-- waiting for a stream leaves them, and a transfer to the device that returns changes at most the
-- table at its destination; if it succeeds, that begins with the data.
pub record Transfers (C : Cuda) (contents : C.Driver → ℕ → List ℕ) : Type 0 where
  pub waited :
      (v : C.CuStream) (d : C.Driver) (p : ℕ)
      → contents (C.cu_stream_synchronize v d).1 p ≡ contents d p
  pub spared :
      (to : ℕ) (words : List ℕ) (d : C.Driver) (p : ℕ)
      → p ≢ to
      → contents (C.cu_memcpy_htod to words d).1 p ≡ contents d p
  pub written :
      (to : ℕ) (words : List ℕ) (d : C.Driver)
      → int_eq (C.cu_memcpy_htod to words d).0 (pos 0) ≡ true
      → take (length words) (contents (C.cu_memcpy_htod to words d).1 to) ≡ words

module _ {C : Cuda} (contents : C.Driver → ℕ → List ℕ) where
  -- The device reads of a table what it read of it before.
  abbrev pub ReadsSame : CudaStorage C → CudaStorage C → ℕ → Type 0
  ReadsSame s s' i =
      (p : ℕ)
      → device_pointer (s.tables i) ≡ ok p
      → (device_pointer (s'.tables i) ≡ ok p) × (contents s'.driver p ≡ contents s.driver p)

  -- The device reads the given addresses of a table, and so does the host.
  abbrev pub ReadsNew : CudaStorage C → List ℕ → ℕ → ℕ → ℕ → Type 0
  ReadsNew s' as' position spare i =
      (device_pointer (s'.tables i) ≡ ok spare)
      × (take (length as') (contents s'.driver spare) ≡ as')
      × ((s'.tables i).published_addresses.addresses ≡ as')
      × ((s'.tables i).position ≡ position)

  abbrev pub Publishes :
      CudaStorage C → List ℕ → ℕ → ℕ → CudaResult (Unit {0}) × CudaStorage C → Type 0
  Publishes s as' position spare (ok _, s') =
      ReadsNew s' as' position spare s.context × ((i : ℕ) → i ≢ s.context → ReadsSame s s' i)
  Publishes s as' position spare (err e, s') = (i : ℕ) → ReadsSame s s' i
  Publishes s as' position spare (panic, s') = ⊥
