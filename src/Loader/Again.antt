-- ===== src/Loader/Again.antt =====
-- What `load` of bootstrap/x86_64_object.c has loaded, relocated again.
