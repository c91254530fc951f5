-- ===== src/Command.antt =====
-- mcstatus/__main__.py: the command line. `argparse`, `json.dump`, `print` and the formatting of numbers
-- and exceptions are parameters.
pub mod Output
pub mod Commands
pub mod Main
pub mod Wiring
pub mod Laws
pub mod Exits
