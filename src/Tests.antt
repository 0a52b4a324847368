-- ===== src/Tests.antt =====
-- Concrete runs of the model.
mod Decode
mod Cfg
mod Verify
mod Ptx
