-- ===== src/Mysql.antt =====
-- swoole_mysql.cc and swoole_mysql_async.h: the asynchronous MySQL client.
pub mod Wire
pub mod Field
pub mod Client
pub mod Packet
pub mod Columns
pub mod Over
pub mod BigData
pub mod Rows
pub mod Response
pub mod Query
pub mod Auth
mod Tests
