-- ===== src/Task/Stops.antt =====
-- OnStop of a task ends once its work does.
