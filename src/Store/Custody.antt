-- ===== src/Store/Custody.antt =====
-- The rows of prisma/schema.prisma about a customer's documents and about what is kept for them. A text that the
-- code takes apart is the list of its characters.
use girvi_ghata_backend.Base.{ℕ, Option, List}

-- `aadhaar_encrypted` is what `CryptoService.encrypt` returns.
pub record CustomerKyc : Type 0 where
  pub aadhaar_encrypted : Option (List ℕ)
  pub aadhaar_last4 : Option (List ℕ)
  pub pan_number : Option (List ℕ)

pub record StorageLocation : Type 0 where
  pub tenant : ℕ
  pub branch : ℕ
  pub kind : ℕ
  pub code : ℕ
  pub parent : Option ℕ

pub record Packet : Type 0 where
  pub girvi_transaction_id : ℕ
  pub qr_code : ℕ
  pub storage_location : Option ℕ
