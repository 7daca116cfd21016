-- ===== src/Db.antt =====
-- src/NavDB.cpp: the buffered bulk inserts of a worker thread, and the updates of the delta mode.
-- PostgreSQL is outside the repository. The outcome of a COPY is a parameter, and a table is the list of
-- its rows.
pub mod Copy
pub mod TagTable
pub mod Nav
pub mod Queries
