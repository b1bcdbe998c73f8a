-- ===== src/Reactor.antt =====
-- src/fmc/reactor.c and the calls of src/fmc/component.c by which a component tells the reactor what
-- to run. A component's own code is a parameter, which may change the reactor and its own state.
-- Times are numbers in their order, and an error is a mark without its message.
pub mod State
pub mod Run
pub mod Expire
pub mod Rounds
pub mod Once
pub mod Twice
