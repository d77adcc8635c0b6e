-- ===== src/Car/Import/Verified.antt =====
-- What the reader of the import of crates/ozd-app/src/car.rs sends on.
use ozd.Prelude.{ℕ, List, Bool, true, ◌&&◌, some, take, drop, ◌≡◌, All, IsByte}
use ozd.Domain.{BlockKey, Body, DomainResult}
use ozd.Car.{parse_cid}
use ozd.Car.Import.{Reading, is_sha256, key_for_multihash}

module _ (sha256 : List ℕ → List ℕ) (key_prefix : List ℕ) (verify : Bool) where
  -- A block is one of a frame of bytes whose identifier parses: its key is that of the frame's
  -- multihash, its body is the rest of the frame, and the digest of a sha2-256 is the body's hash
  -- if frames are verified.
  pub record IsVerified (block : BlockKey × Body) : Type 0 where
    pub frame : List ℕ
    pub cid_len : ℕ
    pub mh : List ℕ
    pub bytes : All IsByte frame
    pub parsed : parse_cid frame ≡ some (cid_len, mh)
    pub key : block.0 ≡ key_for_multihash key_prefix mh
    pub body : block.1 ≡ drop cid_len frame
    pub digest : (verify && is_sha256 mh) ≡ true → sha256 block.1 ≡ take 32 (drop 2 mh)

  abbrev Out : Type 0
  Out = DomainResult (Unit {0}) × Reading
