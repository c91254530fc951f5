-- ===== src/Utils/Deprecation.antt =====
-- mcstatus/_utils/deprecation.py: warnings and errors for what is to be removed. The version of the
-- installed package, which `importlib.metadata` gives, and Unicode's decimal digits are parameters.
pub mod Pattern
pub mod Warn
pub mod Order
pub mod Laws
pub mod Release
pub mod Version
pub mod Project
pub mod Outcome
