-- ===== src/Main.antt =====
-- main.c: the threads of the program and the loop over the URLs.
pub mod Options
pub mod Decimal
pub mod Arguments
pub mod Crawl
pub mod Start
pub mod Position
pub mod Grows
pub mod Rounds
pub mod Ends
pub mod Restart
pub mod Kept
pub mod Loops
pub mod Output
pub mod Failure
