-- ===== src/StrictJson.antt =====
-- src/strict-json.ts: the duplicate-member scanner and the strict admission of JSON bytes.
pub mod Scanner
pub mod Fuel
pub mod Admission
