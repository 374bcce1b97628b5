-- ===== src/DhcpEvent/Locations.antt =====
-- Where MUD files and their signatures are fetched from and stored.
use osmud.Prelude.{
  ℕ, suc, ◌+◌, ◌≡◌, ◌≢◌, refl, ◌∙◌, false, some, [], ◌∷◌, ◌++◌, arith, length, drop, length-append,
  drop-append_tail,
}
use osmud.CString.{Bytes, has, strrchr, strip_slashes, basename}
use osmud.CString.Laws.{strrchr-append}
use osmud.Utils.{HeapText, fits}
use osmud.DhcpEvent.{create_storage_location}

strip_slashes-free : (s : Bytes) → has b'/' s ≡ false → strip_slashes s ≡ s
unfolding strip_slashes has
strip_slashes-free [] h = refl
strip_slashes-free (x ∷ xs) h = ground (arith, strip_slashes-free xs)

strip_slashes-append :
    (a : Bytes) (c : ℕ) (cs : Bytes)
    → strip_slashes (c ∷ cs) ≡ c ∷ cs
    → strip_slashes (a ++ (c ∷ cs)) ≡ a ++ (c ∷ cs)
unfolding strip_slashes
strip_slashes-append [] c cs h = h
strip_slashes-append (x ∷ []) c cs h = rw (h, strip_slashes)
strip_slashes-append (x ∷ y ∷ ys) c cs h = rw (strip_slashes-append (y ∷ ys) c cs h, strip_slashes)

-- a URL whose last part is `name`
strip_slashes-url :
    (a name : Bytes)
    → name ≢ []
    → has b'/' name ≡ false
    → strip_slashes (a ++ (b'/' ∷ name)) ≡ a ++ (b'/' ∷ name)
strip_slashes-url a [] ne h = absurd (ne refl)
strip_slashes-url a (x ∷ xs) ne h =
    strip_slashes-append a b'/' (x ∷ xs)
      (strip_slashes-append (b'/' ∷ []) x xs (strip_slashes-free (x ∷ xs) h))

basename-cons :
    (c : ℕ) (cs : Bytes) {i : ℕ}
    → strip_slashes (c ∷ cs) ≡ c ∷ cs
    → strrchr b'/' (c ∷ cs) ≡ some i
    → basename (c ∷ cs) ≡ (drop (suc i) (c ∷ cs), c ∷ cs)
unfolding basename
basename-cons c cs h r = rw (h, basename) (rw r)

basename-url :
    (a name : Bytes)
    → name ≢ []
    → has b'/' name ≡ false
    → basename (a ++ (b'/' ∷ name)) ≡ (name, a ++ (b'/' ∷ name))
basename-url [] name ne h =
    basename-cons b'/' name (strip_slashes-url [] name ne h) (strrchr-append b'/' [] name h)
basename-url (x ∷ xs) name ne h =
    basename-cons x (xs ++ (b'/' ∷ name)) (strip_slashes-url (x ∷ xs) name ne h)
      (strrchr-append b'/' (x ∷ xs) name h)
    ∙ rw (drop-append_tail (x ∷ xs) b'/' name)

-- The location of a URL that ends in a file name is that name in the data directory, and the URL
-- stays as it is. The block for the location is always one byte too small for it.
pub create_storage_location_lem :
    (directory a name : Bytes)
    → name ≢ []
    → has b'/' name ≡ false
    → (h : HeapText) × (create_storage_location directory (some (a ++ (b'/' ∷ name)))
        ≡ (some h, some (a ++ (b'/' ∷ name))))
      × (h.text ≡ directory ++ (b'/' ∷ name))
      × (h.capacity ≡ length h.text)
      × (fits h ≡ false)
unfolding create_storage_location
create_storage_location_lem directory a name ne h = (
  record { capacity = length directory + length name + 1; text = directory ++ (b'/' ∷ name) },
  rw (basename-url a name ne h),
  refl,
  omega (arith, length-append directory (b'/' ∷ name)),
  ground (arith, length-append directory (b'/' ∷ name)),
)
