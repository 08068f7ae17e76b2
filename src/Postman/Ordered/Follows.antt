-- ===== src/Postman/Ordered/Follows.antt =====
-- However reads, changes of the feed and takes interleave, a call hands on its task's events in the
-- server's order.
