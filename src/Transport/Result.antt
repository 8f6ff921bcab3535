-- ===== src/Transport/Result.antt =====
-- What a call of a transport comes to.
-- The first group is ConnectionError, by its message; the second is what escapes as another
-- exception: those of the package websockets, FileNotFoundError and SerialException.
pub data Error : Type 0 where
  not_connected connect_failed read_failed write_failed reconnect_failed : Error
  escaped_closed escaped_failed file_not_found serial_failed : Error

-- `stuck`: out of fuel.
pub data Result (A : Type 0) : Type 0 where
  ok : A → Result A
  err : Error → Result A
  stuck : Result A
