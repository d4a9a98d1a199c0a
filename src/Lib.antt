-- ===== src/Lib.antt =====
-- Models of iris-grib: the translation of GRIB messages to the metadata of iris cubes.
--
-- The program reads a GRIB2 message by ecCodes, groups its keys into sections (message.py), and
-- translates the sections one after the other into the metadata of a cube (_load_convert.py); the
-- phenomenon of a message is looked up in tables (grib_phenom_translation, _grib_cf_map.py). All
-- paths are below src/iris_grib.
--
-- Base      equality, Python's exceptions as values (Errors), integers (Int) and dictionaries (Dict)
-- Value     the objects that a key of a message can hold, and `Reader`, which is what a section
--           offers to the translations: section[key], key in section.keys(), get_computed_key
-- Message   message.py. Section is the class of that name: its state is its keys and its cache,
--           get_item is __getitem__ and set_item is __setitem__, each giving the new section;
--           Cache.reader shows a new section as a Reader. Grouping is _get_message_sections. Data is
--           GribMessage.data (its shape) and _DataProxy (the values and the bitmap).
-- Phenom    grib_phenom_translation/__init__.py, its tables from _grib_cf_map.py (Grib2ToCf,
--           CfToGrib2), and Code, _gribcode.py
-- Externals, Metadata, CoordSystems, Tables
--           what other packages do for _load_convert.py, the metadata that it fills in, its code tables
-- Load      _load_convert.py by its sections: Scaling (unscale, _hindcast_fix), Flags, Time,
--           Vertical, Statistics, Phenomenon, Product (section 4 and its templates), Convert (the
--           other sections and the whole message), Ellipsoid (the figure of the earth), Grid (section
--           3: the grid templates), Grib1 (_grib1_load_rules.py). Flags also has scanning_mode_flags of
--           _save_rules.py.
-- Save      _save_rules.py: Cube (what is asked of a cube, and Encoding, of Python's numbers),
--           Surfaces (set_fixed_surfaces), Coefficients (its vector of hybrid levels), Times, Parameter
--           (set_discipline_and_parameter), Product (section 4: save_template_N is
--           product_definition_template_N), Grid and Projected (save_grid_N is
--           grid_definition_template_N), Sections (the choice of a grid template, and run), Data
--           (identification and data_section; ArrayType is numpy's dtype of the data), Shape
--           (shape_of_the_earth) and Codes (statistical_method_code, get_spatial_process_code). The
--           message is a dictionary of keys, which a function takes and gives back;
--           Save.Shape.RoundTrip.section_of_keys reads it.
-- Tests     concrete messages
--
-- A function that may raise gives a Result; the class of an exception is kept, its message is not.
-- A function that changes `metadata` takes it and gives it back. The options have their defaults,
-- under which no warning is modelled. Floats are a type F with operations (Externals), which also
-- holds cf_units and datetime, and those that the grids use of math, numpy, iris and cartopy are
-- Load.Grid.Points.Geometry; ecCodes is Codes; the standard names of iris and the units that cf_units
-- accepts are Vocabulary. The coordinates, cell methods and factories of iris are records of the
-- arguments of their constructors, and what those constructors check is not modelled. The text of an
-- interval, "3 hours", is kept as a pair.
--
-- The only fuel is that of Phenom.Code.decimal, the number and one more, which is above the number
-- of its digits; all other recursion is structural.
--
-- Not modelled: the wrapper of GRIB1 messages, whose attributes are arguments; files, dask and ecCodes.
pub mod Base
pub mod Value
pub mod Message
pub mod Phenom
pub mod Externals
pub mod CoordSystems
pub mod Metadata
pub mod Tables
pub mod Load
pub mod Tests
pub mod Save
