-- ===== src/Subs.antt =====
-- Subscriptions: src/topic_tok.c and src/subs.c. The tree below `db.subs`, the walk to the node of a
-- filter, and the search for the subscriptions that a topic matches.
-- A hash table of children is a list of names and nodes in the order of insertion. A node is named by
-- its path, so the pointer to its parent is not needed.
pub mod Tokens
pub mod Tree
pub mod Search
pub mod Add
pub mod Remove
pub mod CleanSession
pub mod Publish
